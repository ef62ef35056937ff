-- ===== src/Ingestion/Submission.antt =====
-- How SubmitEvent of services/ingestion/internal/server/server.go can end for a key that is new.
use mathlib.Core.Path.{subst}
use momotaro.Prelude.{
  ℕ, suc, ◌≡◌, refl, sym, ap, ◌∙◌, ◌&&◌, Bool, true, false, not, none, some, List, [], ◌∷◌, ◌++◌,
  ◌⊎◌, inl, inr, arith, Bool-cases, Option-cases,
}
use momotaro.Prelude.Text.{Bytes, same, same_refl}
use momotaro.Platform.HopCodec.{is_empty}
use momotaro.Platform.Time.{Time}
use momotaro.Proto.{Uuid}
use momotaro.Ingestion.{
  NewRecord, IngestedEvent, IngestedRow, Ingest, IngestError, Rejection, invalid, publish_failed,
  validate_new_record, new_event, row_of_key, find_by_idempotency_key, insert_record, publish,
  published_as, rolling_batch_id, create_batch,
}
use momotaro.Ingestion.Submit.{
  ingest_one, counted, increment_batch_total, submit_new, EventResponse, known_event,
}

-- A key that no row has is found after its row is added.
pub row_of_key-append :
    (key : Bytes) (rows : List IngestedRow) (event : IngestedEvent)
    → row_of_key key rows ≡ none
    → row_of_key key (rows ++ (record { event = event; idempotency_key = key } ∷ []))
      ≡ some (record { event = event; idempotency_key = key })
unfolding row_of_key
row_of_key-append key [] event n = rw (same_refl key) refl
row_of_key-append key (r ∷ rows) event n = elim (Bool-cases (same r.idempotency_key key)) [
  | inl e ↦ cc (rw (e, row_of_key) at n)
  | inr e ↦ rw e (row_of_key-append key rows event (rw (e, row_of_key) at n))
]

pub and_false : (b : Bool) → (b && false) ≡ false
and_false true = refl
and_false false = refl

-- A state after the row of an event was added.
abbrev pub with_row : IngestedEvent → Bytes → Ingest → Ingest
with_row event key s = record s {
  rows = s.rows ++ (record { event = event; idempotency_key = key } ∷ []);
  drawn = suc s.drawn;
}

-- The known answer for an event.
abbrev pub answer_of : IngestedEvent → EventResponse
answer_of event = record {
  record_id = event.record_id;
  batch_id = event.batch_id;
  deduplicated = false;
}

pub found_after :
    (key : Bytes) (s : Ingest) (event : IngestedEvent) (s' : Ingest)
    → row_of_key key s.rows ≡ none
    → s'.rows ≡ (with_row event key s).rows
    → find_by_idempotency_key key s' ≡ some (event.record_id, event.batch_id)
unfolding find_by_idempotency_key
found_after key s event s' n e =
    rw (ap (row_of_key key) e ∙ row_of_key-append key s.rows event n, find_by_idempotency_key) refl

pub not_found :
    (key : Bytes) (s : Ingest) → find_by_idempotency_key key s ≡ none → row_of_key key s.rows ≡ none
unfolding find_by_idempotency_key
not_found key s e = elim (Option-cases (row_of_key key s.rows)) [
  | inl n ↦ n
  | inr (r, n) ↦ cc (rw (n, find_by_idempotency_key) at e)
]

pub accepted_event :
    (accepts : IngestedEvent → Bool) (e : IngestedEvent) (s : Ingest)
    → accepts e ≡ true
    → publish accepts e s ≡ (inr tt, record s { events = s.events ++ (e ∷ []) })
unfolding publish
accepted_event accepts e s a = rw a refl

pub refused_event :
    (accepts : IngestedEvent → Bool) (e : IngestedEvent) (s : Ingest)
    → accepts e ≡ false
    → publish accepts e s ≡ (inl publish_failed, s)
unfolding publish
refused_event accepts e s a = rw a refl

incremented_rows : (id : Uuid) (s : Ingest) → (increment_batch_total id s).rows ≡ s.rows
unfolding increment_batch_total
incremented_rows id s = refl

incremented_events : (id : Uuid) (s : Ingest) → (increment_batch_total id s).events ≡ s.events
unfolding increment_batch_total
incremented_events id s = refl

abbrev pub Submission : Type 0
Submission = (IngestError ⊎ EventResponse) × Ingest

pub no_failure :
    (known : Uuid × Uuid) (s s' : Ingest)
    → ¬ (◌≡◌ {A = Submission} (inr (known_event known), s) (inl publish_failed, s'))
no_failure known s s' e = cc (ap (λ (o : Submission). o.0) e)

pub known_resp :
    (known : Uuid × Uuid) (resp : EventResponse) (s s' : Ingest)
    → ◌≡◌ {A = Submission} (inr (known_event known), s) (inr resp, s')
    → known_event known ≡ resp
known_resp known resp s s' e = cc (ap (λ (o : Submission). o.0) e)

module _ (uuids : ℕ → Uuid) (rolling_source : Bytes) where
  -- Where the batch of an event comes from, the rows and the events stay as they are.
  pub rolling_kept :
      (s : Ingest)
      → ((rolling_batch_id uuids rolling_source s).1.rows ≡ s.rows)
        × ((rolling_batch_id uuids rolling_source s).1.events ≡ s.events)
  unfolding rolling_batch_id create_batch
  rolling_kept s = (ground arith, ground arith)

  ingest_one_unknown :
      (accepts : IngestedEvent → Bool) (now : Time) (batch_id : Uuid) (nr : NewRecord) (key : Bytes)
      (s : Ingest)
      → row_of_key key s.rows ≡ none
      → ingest_one uuids accepts now batch_id nr key s
        ≡ published_as (uuids s.drawn) (
            publish accepts
              (new_event (uuids s.drawn) batch_id now nr)
              (with_row (new_event (uuids s.drawn) batch_id now nr) key s))
  unfolding ingest_one insert_record
  ingest_one_unknown accepts now batch_id nr key s n =
      rw n (rw (and_false (not (is_empty key))) refl)

  -- The event that an unknown valid event becomes.
  abbrev pub becomes : Time → NewRecord → Ingest → IngestedEvent
  becomes now nr s =
      let (batch_id, s') = rolling_batch_id uuids rolling_source s in
      new_event (uuids s'.drawn) batch_id now nr

  pub submit_new_unknown :
      (accepts : IngestedEvent → Bool) (now : Time) (nr : NewRecord) (key : Bytes) (s : Ingest)
      → row_of_key key s.rows ≡ none
      → validate_new_record nr ≡ none
      → submit_new uuids accepts rolling_source now nr key s
        ≡ counted (rolling_batch_id uuids rolling_source s).0 (
            published_as (becomes now nr s).record_id (
              publish accepts
                (becomes now nr s)
                (with_row (becomes now nr s) key (rolling_batch_id uuids rolling_source s).1)))
  unfolding submit_new
  submit_new_unknown accepts now nr key s n v =
      rw (v, submit_new)
        (ap (counted (rolling_batch_id uuids rolling_source s).0) (
          ingest_one_unknown accepts now (rolling_batch_id uuids rolling_source s).0 nr key
            (rolling_batch_id uuids rolling_source s).1
            (ap (row_of_key key) (rolling_kept s).0 ∙ n)))

  pub submit_new_invalid :
      (accepts : IngestedEvent → Bool) (now : Time) (nr : NewRecord) (key : Bytes) (s : Ingest)
      (reason : Rejection)
      → validate_new_record nr ≡ some reason
      → submit_new uuids accepts rolling_source now nr key s ≡ (inl (invalid reason), s)
  unfolding submit_new
  submit_new_invalid accepts now nr key s reason v = rw (v, submit_new) refl

  -- A submission of a key that is new ends in one of three ways.
  pub data Submitted (now : Time) (nr : NewRecord) (key : Bytes) (s : Ingest)
      : Submission → Type 0 where
    refused : (reason : Rejection) → Submitted now nr key s (inl (invalid reason), s)
    unpublished :
        (s' : Ingest)
        → s'.rows ≡ (with_row (becomes now nr s) key s).rows
        → s'.events ≡ s.events
        → Submitted now nr key s (inl publish_failed, s')
    done :
        (s' : Ingest)
        → s'.rows ≡ (with_row (becomes now nr s) key s).rows
        → s'.events ≡ s.events ++ (becomes now nr s ∷ [])
        → Submitted now nr key s (inr (answer_of (becomes now nr s)), s')

  pub submit_new-Submitted :
      (accepts : IngestedEvent → Bool) (now : Time) (nr : NewRecord) (key : Bytes) (s : Ingest)
      → row_of_key key s.rows ≡ none
      → Submitted now nr key s (submit_new uuids accepts rolling_source now nr key s)
  submit_new-Submitted accepts now nr key s n = elim (Option-cases (validate_new_record nr)) [
    | inr (reason, v) ↦
        subst (Submitted now nr key s) (sym (submit_new_invalid accepts now nr key s reason v))
          (refused reason)
    | inl v ↦
        subst (Submitted now nr key s) (sym (submit_new_unknown accepts now nr key s n v))
          (outcome v)
  ]
    where
      s1 : Ingest
      s1 = (rolling_batch_id uuids rolling_source s).1

      e : IngestedEvent
      e = becomes now nr s

      kept : s1.rows ≡ s.rows
      kept = (rolling_kept s).0

      rows : (with_row e key s1).rows ≡ (with_row e key s).rows
      rows =
          ap (λ (rs : List IngestedRow). rs ++ (record { event = e; idempotency_key = key } ∷ []))
            kept

      outcome :
          validate_new_record nr ≡ none
          → Submitted now nr key s (
              counted
                (rolling_batch_id uuids rolling_source s).0
                (published_as e.record_id (publish accepts e (with_row e key s1))))
      outcome v = elim (Bool-cases (accepts e)) [
        | inl a ↦
            subst
              (λ r.
                Submitted now nr key s (
                  counted (rolling_batch_id uuids rolling_source s).0 (published_as e.record_id r)))
              (sym (accepted_event accepts e (with_row e key s1) a))
              (done _ (incremented_rows (rolling_batch_id uuids rolling_source s).0 _ ∙ rows) (
                incremented_events (rolling_batch_id uuids rolling_source s).0 _
                ∙ ap (λ (es : List IngestedEvent). es ++ (e ∷ [])) (rolling_kept s).1))
        | inr a ↦
            subst
              (λ r.
                Submitted now nr key s (
                  counted (rolling_batch_id uuids rolling_source s).0 (published_as e.record_id r)))
              (sym (refused_event accepts e (with_row e key s1) a))
              (unpublished (with_row e key s1) rows (rolling_kept s).1)
      ]
