-- ===== src/Ingestion/Repeats.antt =====
-- An idempotency key that comes twice (SubmitEvent of services/ingestion/internal/server/server.go).
use mathlib.Core.Path.{subst}
use momotaro.Prelude.{
  ℕ, ◌≡◌, refl, sym, ap, ◌∙◌, Bool, true, false, none, some, [], ◌∷◌, ◌++◌, inl, inr, Option-cases,
}
use momotaro.Prelude.Text.{Bytes}
use momotaro.Platform.HopCodec.{is_empty}
use momotaro.Platform.Time.{Time}
use momotaro.Proto.{Uuid}
use momotaro.Ingestion.{NewRecord, IngestedEvent, Ingest, publish_failed, find_by_idempotency_key}
use momotaro.Ingestion.Submit.{submit_new, submit_event, EventResponse, known_event}
use momotaro.Ingestion.Later.{Later, Later-Grown, Grown-found}
use momotaro.Ingestion.Submission.{
  with_row, answer_of, found_after, not_found, Submission, no_failure, known_resp, becomes,
  Submitted, refused, unpublished, done, submit_new-Submitted,
}

module _ (uuids : ℕ → Uuid) (rolling_source : Bytes) where
  -- A second submission of a key whose event has a row is answered from the row, and changes nothing.
  known_key :
      (accepts : IngestedEvent → Bool) (now : Time) (nr : NewRecord) (key : Bytes) (s : Ingest)
      (known : Uuid × Uuid)
      → is_empty key ≡ false
      → find_by_idempotency_key key s ≡ some known
      → submit_event uuids accepts rolling_source now (some nr) key s ≡ (inr (known_event known), s)
  unfolding submit_event
  known_key accepts now nr key s known k f = rw (k, f, submit_event) refl

  unknown_key :
      (accepts : IngestedEvent → Bool) (now : Time) (nr : NewRecord) (key : Bytes) (s : Ingest)
      → is_empty key ≡ false
      → find_by_idempotency_key key s ≡ none
      → submit_event uuids accepts rolling_source now (some nr) key s
        ≡ submit_new uuids accepts rolling_source now nr key s
  unfolding submit_event
  unknown_key accepts now nr key s k f = rw (k, f, submit_event) refl

  -- What a submission of a new key left behind, read from its answer.
  done_inv :
      (now : Time) (nr : NewRecord) (key : Bytes) (s : Ingest) (resp : EventResponse) (s' : Ingest)
      {out : Submission}
      → Submitted uuids rolling_source now nr key s out
      → out ≡ (inr resp, s')
      → (resp ≡ answer_of (becomes uuids rolling_source now nr s))
        × (s'.rows ≡ (with_row (becomes uuids rolling_source now nr s) key s).rows)
  done_inv now nr key s resp s' (refused reason) e = absurd (cc (ap (λ (o : Submission). o.0) e))
  done_inv now nr key s resp s' (unpublished t rows events) e =
      absurd (cc (ap (λ (o : Submission). o.0) e))
  done_inv now nr key s resp s' (done t rows events) e =
      (cc (ap (λ (o : Submission). o.0) e), ap (λ (o : Submission). o.1.rows) (sym e) ∙ rows)

  unpublished_inv :
      (now : Time) (nr : NewRecord) (key : Bytes) (s s' : Ingest) {out : Submission}
      → Submitted uuids rolling_source now nr key s out
      → out ≡ (inl publish_failed, s')
      → (s'.rows ≡ (with_row (becomes uuids rolling_source now nr s) key s).rows)
        × (s'.events ≡ s.events)
  unpublished_inv now nr key s s' (refused reason) e = absurd (cc (ap (λ (o : Submission). o.0) e))
  unpublished_inv now nr key s s' (unpublished t rows events) e = (
    ap (λ (o : Submission). o.1.rows) (sym e) ∙ rows,
    ap (λ (o : Submission). o.1.events) (sym e) ∙ events,
  )
  unpublished_inv now nr key s s' (done t rows events) e =
      absurd (cc (ap (λ (o : Submission). o.0) e))

  -- A submission with a key that was answered left a row, from which the answer can be read.
  answered_from :
      (accepts : IngestedEvent → Bool) (now : Time) (nr : NewRecord) (key : Bytes) (s s' : Ingest)
      (resp : EventResponse)
      → is_empty key ≡ false
      → submit_event uuids accepts rolling_source now (some nr) key s ≡ (inr resp, s')
      → (known : Uuid × Uuid) × (find_by_idempotency_key key s' ≡ some known)
        × (record resp { deduplicated = true } ≡ known_event known)
  answered_from accepts now nr key s s' resp k e =
      elim (Option-cases (find_by_idempotency_key key s)) [
        | inr (known, f) ↦
            let q = sym (known_key accepts now nr key s known k f) ∙ e in
            let same_s : s ≡ s' = ap (λ (out : Submission). out.1) q in
            let answer : known_event known ≡ resp = known_resp known resp s s' q in
            (
              known,
              subst (λ x. find_by_idempotency_key key x ≡ some known) same_s f,
              ap (λ (r : EventResponse). record r { deduplicated = true }) (sym answer),
            )
        | inl f ↦
            let n = not_found key s f in
            let (a, rows) =
              done_inv now nr key s resp s'
                (submit_new-Submitted uuids rolling_source accepts now nr key s n)
                (sym (unknown_key accepts now nr key s k f) ∙ e) in
            (
              _,
              found_after key s (becomes uuids rolling_source now nr s) s' n rows,
              ap (λ (r : EventResponse). record r { deduplicated = true }) a,
            )
      ]

  -- An event that was submitted with a key is the same event when the key comes again, after whatever
  -- requests have been handled since: whatever record, broker and time come with it, the answer names
  -- the record and the batch of the first answer, marked as a duplicate, and nothing is stored or
  -- published.
  pub repeat-deduplicated :
      (accepts accepts' : IngestedEvent → Bool) (now now' : Time) (nr nr' : NewRecord) (key : Bytes)
      (s s' t : Ingest) (resp : EventResponse)
      → is_empty key ≡ false
      → submit_event uuids accepts rolling_source now (some nr) key s ≡ (inr resp, s')
      → Later uuids rolling_source s' t
      → submit_event uuids accepts' rolling_source now' (some nr') key t
        ≡ (inr (record resp { deduplicated = true }), t)
  repeat-deduplicated accepts accepts' now now' nr nr' key s s' t resp k e later =
      let (known, found, same) = answered_from accepts now nr key s s' resp k e in
      known_key accepts' now' nr' key t known k
        (Grown-found key s' t known (Later-Grown uuids rolling_source later) found)
      ∙ ap (λ (r : EventResponse). (inr r, t)) (sym same)

  -- An event with a key whose publication failed is stored as a row and not published; and after
  -- whatever requests have been handled since, a submission of the key, with any record, broker and
  -- time, is answered as a duplicate with that row's record and batch, and changes and publishes
  -- nothing.
  pub unpublished-deduplicated :
      (accepts accepts' : IngestedEvent → Bool) (now now' : Time) (nr nr' : NewRecord) (key : Bytes)
      (s s' t : Ingest)
      → is_empty key ≡ false
      → submit_event uuids accepts rolling_source now (some nr) key s ≡ (inl publish_failed, s')
      → Later uuids rolling_source s' t
      → let e = becomes uuids rolling_source now nr s in
        (s'.rows ≡ s.rows ++ (record { event = e; idempotency_key = key } ∷ []))
        × (s'.events ≡ s.events)
        × (submit_event uuids accepts' rolling_source now' (some nr') key t ≡ (
          inr (record { record_id = e.record_id; batch_id = e.batch_id; deduplicated = true }),
          t,
        ))
  unpublished-deduplicated accepts accepts' now now' nr nr' key s s' t k e later =
      elim (Option-cases (find_by_idempotency_key key s)) [
        | inr (known, f) ↦
            absurd (no_failure known s s' (sym (known_key accepts now nr key s known k f) ∙ e))
        | inl f ↦
            let n = not_found key s f in
            let (rows, events) =
              unpublished_inv now nr key s s'
                (submit_new-Submitted uuids rolling_source accepts now nr key s n)
                (sym (unknown_key accepts now nr key s k f) ∙ e) in
            let found = found_after key s (becomes uuids rolling_source now nr s) s' n rows in
            (
              rows,
              events,
              known_key accepts' now' nr' key t _ k
                  (Grown-found key s' t _ (Later-Grown uuids rolling_source later) found),
            )
      ]
