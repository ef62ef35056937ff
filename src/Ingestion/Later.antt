-- ===== src/Ingestion/Later.antt =====
-- Requests that SubmitEvent and SubmitBatch of services/ingestion/internal/server/server.go handle one
-- after another: the rows of the table record are only added to.
use mathlib.Core.Path.{subst}
use mathlib.Core.List.{append_assoc, append-nil}
use momotaro.Prelude.{
  ℕ, suc, ◌≡◌, ◌∙◌, refl, sym, ap, Bool, not, ◌&&◌, Option, none, some, List, [], ◌∷◌, ◌++◌, ◌⊎◌,
  inl, inr, Option-cases, Bool-cases,
}
use momotaro.Prelude.Text.{Bytes, same}
use momotaro.Platform.HopCodec.{is_empty}
use momotaro.Platform.Time.{Time}
use momotaro.Proto.{Uuid}
use momotaro.Ingestion.{
  NewRecord, Rejection, IngestedEvent, IngestedRow, Ingest, IngestError, validate_new_record,
  create_batch, rolling_batch_id, row_of_key, find_by_idempotency_key, insert_record, publish,
  new_event, is_taken,
}
use momotaro.Ingestion.Submission.{Submission, rolling_kept, submit_new_invalid}
use momotaro.Ingestion.Submit.{
  ingest_one, increment_batch_total, set_batch_total, counted, submit_new, submit_event,
  submit_records, totalled, submit_batch,
}

-- Rows were added behind those that were there.
abbrev pub Grown : Ingest → Ingest → Type 0
Grown s t = (more : List IngestedRow) × (t.rows ≡ s.rows ++ more)

Grown-refl : (s : Ingest) → Grown s s
Grown-refl s = ([], sym (append-nil s.rows))

Grown-trans : (s t u : Ingest) → Grown s t → Grown t u → Grown s u
Grown-trans s t u (xs, e) (ys, f) =
    (xs ++ ys, f ∙ ap (λ (rows : List IngestedRow). rows ++ ys) e ∙ append_assoc s.rows xs ys)

row_of_key-append_old :
    (key : Bytes) (rows more : List IngestedRow) (r : IngestedRow)
    → row_of_key key rows ≡ some r
    → row_of_key key (rows ++ more) ≡ some r
unfolding row_of_key
row_of_key-append_old key [] more r f = cc
row_of_key-append_old key (q ∷ rows) more r f = elim (Bool-cases (same q.idempotency_key key)) [
  | inl e ↦ rw e (rw (e, row_of_key) at f)
  | inr e ↦ rw e (row_of_key-append_old key rows more r (rw (e, row_of_key) at f))
]

-- A key that is known stays known for the same record.
pub Grown-found :
    (key : Bytes) (s t : Ingest) (known : Uuid × Uuid)
    → Grown s t
    → find_by_idempotency_key key s ≡ some known
    → find_by_idempotency_key key t ≡ some known
unfolding find_by_idempotency_key
Grown-found key s t known (more, g) f = elim (Option-cases (row_of_key key s.rows)) [
  | inl n ↦ cc (rw (n, find_by_idempotency_key) at f)
  | inr (r, n) ↦
      rw
        (ap (row_of_key key) g ∙ row_of_key-append_old key s.rows more r n, find_by_idempotency_key)
        (rw (n, find_by_idempotency_key) at f)
]

counted-Grown :
    (batch_id : Uuid) (s : Ingest) (out : (IngestError ⊎ Uuid) × Ingest)
    → Grown s out.1
    → Grown s (counted batch_id out).1
unfolding increment_batch_total
counted-Grown batch_id s (inl e, t) g = g
counted-Grown batch_id s (inr id, t) g = g

abbrev Counts : Type 0
Counts = (IngestError ⊎ (ℕ × List (ℕ × Rejection))) × Ingest

-- The rest of the loop behind one record.
abbrev onward : (Ingest → Counts) → (IngestError ⊎ Uuid) × Ingest → Counts
onward f out = elim out.0 [ inl e ↦ (inl e, out.1) | inr id ↦ f out.1 ]

onward-Grown :
    (f : Ingest → Counts) (s : Ingest) (out : (IngestError ⊎ Uuid) × Ingest)
    → Grown s out.1
    → ((t : Ingest) → Grown t (f t).1)
    → Grown s (onward f out).1
onward-Grown f s (inl e, t) g rest = g
onward-Grown f s (inr id, t) g rest = Grown-trans s t (f t).1 g (rest t)

totalled-Grown :
    (batch_id : Uuid) (s : Ingest) (out : Counts)
    → Grown s out.1
    → Grown s (totalled batch_id out).1
unfolding set_batch_total
totalled-Grown batch_id s (inl e, t) g = g
totalled-Grown batch_id s (inr (n, rejected), t) g = g

module _ (uuids : ℕ → Uuid) (rolling_source : Bytes) where
  -- Requests with any brokers, times and contents.
  pub data Later (s : Ingest) : Ingest → Type 0 where
    at_once : Later s s
    event :
        {t : Ingest}
        → Later s t
        → (accepts : IngestedEvent → Bool) (now : Time) (nr : Option NewRecord) (key : Bytes)
        → Later s (submit_event uuids accepts rolling_source now nr key t).1
    batch :
        {t : Ingest}
        → Later s t
        → (accepts : IngestedEvent → Bool) (now : Time) (source : Bytes) (nrs : List NewRecord)
        → Later s (submit_batch uuids accepts now source nrs t).1

  ingest_one-Grown :
      (accepts : IngestedEvent → Bool) (now : Time) (batch_id : Uuid) (nr : NewRecord) (key : Bytes)
      (s : Ingest)
      → Grown s (ingest_one uuids accepts now batch_id nr key s).1
  unfolding ingest_one insert_record publish
  ingest_one-Grown accepts now batch_id nr key s =
      elim (Bool-cases (not (is_empty key) && is_taken (row_of_key key s.rows))) [
        | inl taken ↦ rw taken (Grown-refl s)
        | inr free ↦ elim (Bool-cases (accepts (new_event (uuids s.drawn) batch_id now nr))) [
          | inl a ↦ rw (free, a) (_, refl)
          | inr a ↦ rw (free, a) (_, refl)
        ]
      ]

  submit_new-valid :
      (accepts : IngestedEvent → Bool) (now : Time) (nr : NewRecord) (key : Bytes) (s : Ingest)
      → validate_new_record nr ≡ none
      → submit_new uuids accepts rolling_source now nr key s
        ≡ counted (rolling_batch_id uuids rolling_source s).0 (
            ingest_one uuids accepts now
              (rolling_batch_id uuids rolling_source s).0
              nr
              key
              (rolling_batch_id uuids rolling_source s).1)
  unfolding submit_new
  submit_new-valid accepts now nr key s v = rw (v, submit_new) refl

  submit_new-Grown :
      (accepts : IngestedEvent → Bool) (now : Time) (nr : NewRecord) (key : Bytes) (s : Ingest)
      → Grown s (submit_new uuids accepts rolling_source now nr key s).1
  submit_new-Grown accepts now nr key s = elim (Option-cases (validate_new_record nr)) [
    | inr (reason, v) ↦
        subst (λ (o : Submission). Grown s o.1)
          (sym (submit_new_invalid uuids rolling_source accepts now nr key s reason v))
          (Grown-refl s)
    | inl v ↦
        let (batch_id, s') = rolling_batch_id uuids rolling_source s in
        subst (λ (o : Submission). Grown s o.1) (sym (submit_new-valid accepts now nr key s v))
          (counted-Grown batch_id s (ingest_one uuids accepts now batch_id nr key s') (
            Grown-trans s s' (ingest_one uuids accepts now batch_id nr key s').1
              ([], (rolling_kept uuids rolling_source s).0 ∙ sym (append-nil s.rows))
              (ingest_one-Grown accepts now batch_id nr key s')))
  ]

  submit_event-Grown :
      (accepts : IngestedEvent → Bool) (now : Time) (nr : Option NewRecord) (key : Bytes)
      (s : Ingest)
      → Grown s (submit_event uuids accepts rolling_source now nr key s).1
  unfolding submit_event
  submit_event-Grown accepts now none key s = Grown-refl s
  submit_event-Grown accepts now (some nr) key s = elim (Bool-cases (is_empty key)) [
    | inl e ↦ rw (e, submit_event) (submit_new-Grown accepts now nr key s)
    | inr e ↦ elim (Option-cases (find_by_idempotency_key key s)) [
      | inl n ↦ rw (e, n, submit_event) (submit_new-Grown accepts now nr key s)
      | inr (known, n) ↦ rw (e, n, submit_event) (Grown-refl s)
    ]
  ]

  submit_records-valid :
      (accepts : IngestedEvent → Bool) (now : Time) (batch_id : Uuid) (nr : NewRecord)
      (nrs : List NewRecord) (i accepted : ℕ) (rejected : List (ℕ × Rejection)) (s : Ingest)
      → validate_new_record nr ≡ none
      → submit_records uuids accepts now batch_id (nr ∷ nrs) i accepted rejected s
        ≡ onward
            (submit_records uuids accepts now batch_id nrs (suc i) (suc accepted) rejected)
            (ingest_one uuids accepts now batch_id nr [] s)
  unfolding submit_records
  submit_records-valid accepts now batch_id nr nrs i accepted rejected s v =
      rw (v, submit_records) refl

  submit_records-Grown :
      (accepts : IngestedEvent → Bool) (now : Time) (batch_id : Uuid) (nrs : List NewRecord)
      (i accepted : ℕ) (rejected : List (ℕ × Rejection)) (s : Ingest)
      → Grown s (submit_records uuids accepts now batch_id nrs i accepted rejected s).1
  unfolding submit_records
  submit_records-Grown accepts now batch_id [] i accepted rejected s = Grown-refl s
  submit_records-Grown accepts now batch_id (nr ∷ nrs) i accepted rejected s =
      elim (Option-cases (validate_new_record nr)) [
        | inr (reason, v) ↦
            rw (v, submit_records)
              (submit_records-Grown accepts now batch_id nrs (suc i) accepted
                (rejected ++ ((i, reason) ∷ [])) s)
        | inl v ↦
            subst (λ (o : Counts). Grown s o.1)
              (sym (submit_records-valid accepts now batch_id nr nrs i accepted rejected s v))
              (onward-Grown
                (submit_records uuids accepts now batch_id nrs (suc i) (suc accepted) rejected) s
                (ingest_one uuids accepts now batch_id nr [] s)
                (ingest_one-Grown accepts now batch_id nr [] s)
                (submit_records-Grown accepts now batch_id nrs (suc i) (suc accepted) rejected))
      ]

  submit_batch-Grown :
      (accepts : IngestedEvent → Bool) (now : Time) (source : Bytes) (nrs : List NewRecord)
      (s : Ingest)
      → Grown s (submit_batch uuids accepts now source nrs s).1
  unfolding submit_batch create_batch
  submit_batch-Grown accepts now source [] s = Grown-refl s
  submit_batch-Grown accepts now source (nr ∷ nrs) s =
      totalled-Grown (uuids s.drawn) s _
        (submit_records-Grown accepts now (uuids s.drawn) (nr ∷ nrs) 0 0 [] _)

  pub Later-Grown : {s t : Ingest} → Later s t → Grown s t
  Later-Grown {s} at_once = Grown-refl s
  Later-Grown {s} (event {t} l accepts now nr key) =
      Grown-trans s t (submit_event uuids accepts rolling_source now nr key t).1 (Later-Grown l)
        (submit_event-Grown accepts now nr key t)
  Later-Grown {s} (batch {t} l accepts now source nrs) =
      Grown-trans s t (submit_batch uuids accepts now source nrs t).1 (Later-Grown l)
        (submit_batch-Grown accepts now source nrs t)
