-- ===== src/Ingestion/Batches.antt =====
-- What SubmitBatch of services/ingestion/internal/server/server.go stores, publishes and reports.
use mathlib.Core.List.{append_assoc, append-nil}
use momotaro.Prelude.{
  ℕ, suc, ◌+◌, ◌≡◌, refl, sym, ap, ◌∙◌, Bool, true, none, some, List, [], ◌∷◌, ◌++◌, ◌⊎◌, inl, inr,
  arith, map, length, if◌then◌else◌, Option-cases,
}
use momotaro.Prelude.Text.{Bytes, codes}
use momotaro.Platform.HopCodec.{is_empty}
use momotaro.Platform.Time.{Time}
use momotaro.Proto.{Uuid}
use momotaro.Ingestion.{
  NewRecord, Rejection, IngestedEvent, Ingest, IngestError, validate_new_record, new_event,
  insert_record, publish, create_batch,
}
use momotaro.Ingestion.Submit.{
  BatchResponse, ingest_one, submit_records, set_total, set_batch_total, submit_batch, totalled,
}
use momotaro.Ingestion.Counting.{
  inr_inj, valid_count, rejections, valid_count-valid, valid_count-invalid, count_all, keyless,
}

module _ (uuids : ℕ → Uuid) (now : Time) (batch_id : Uuid) where
  -- The events that the valid records become, with the ids drawn from `d` on.
  abbrev pub events_of : ℕ → List NewRecord → List IngestedEvent
  events_of d [] = []
  events_of d (nr ∷ nrs) = elim (validate_new_record nr) [
    | none ↦ new_event (uuids d) batch_id now nr ∷ events_of (suc d) nrs
    | some reason ↦ events_of d nrs
  ]

  ingest_one-accepted :
      (accepts : IngestedEvent → Bool) (nr : NewRecord) (s : Ingest)
      → ((e : IngestedEvent) → accepts e ≡ true)
      → ingest_one uuids accepts now batch_id nr [] s ≡ (
        inr (uuids s.drawn),
        record s {
          rows = s.rows ++ (keyless (new_event (uuids s.drawn) batch_id now nr) ∷ []);
          events = s.events ++ (new_event (uuids s.drawn) batch_id now nr ∷ []);
          drawn = suc s.drawn;
        },
      )
  unfolding ingest_one insert_record publish
  ingest_one-accepted accepts nr s all = rw (all (new_event (uuids s.drawn) batch_id now nr)) refl

  events_of-valid :
      (nr : NewRecord) (nrs : List NewRecord) (d : ℕ)
      → validate_new_record nr ≡ none
      → events_of d (nr ∷ nrs) ≡ new_event (uuids d) batch_id now nr ∷ events_of (suc d) nrs
  events_of-valid nr nrs d v = rw (v, events_of) refl

  events_of-invalid :
      (nr : NewRecord) (nrs : List NewRecord) (d : ℕ) (reason : Rejection)
      → validate_new_record nr ≡ some reason
      → events_of d (nr ∷ nrs) ≡ events_of d nrs
  events_of-invalid nr nrs d reason v = rw (v, events_of) refl

  length-events_of : (nrs : List NewRecord) (d : ℕ) → length (events_of d nrs) ≡ valid_count nrs
  length-events_of [] d = refl
  length-events_of (nr ∷ nrs) d = elim (Option-cases (validate_new_record nr)) [
    | inl v ↦ omega (
      arith,
      valid_count-valid nr nrs v,
      ap length (events_of-valid nr nrs d v),
      length-events_of nrs (suc d),
    )
    | inr (reason, v) ↦ omega (
      arith,
      valid_count-invalid nr nrs reason v,
      ap length (events_of-invalid nr nrs d reason v),
      length-events_of nrs d,
    )
  ]

  -- The result of the loop and the state it leaves, as a state of parts.
  abbrev Left :
      (IngestError ⊎ (ℕ × List (ℕ × Rejection))) × Ingest
      → ℕ
      → List (ℕ × Rejection)
      → List IngestedEvent
      → Ingest
      → Type 0
  Left out accepted rejected es s =
      (out.0 ≡ inr (accepted, rejected))
      × (out.1.batches ≡ s.batches)
      × (out.1.rows ≡ s.rows ++ map keyless es)
      × (out.1.events ≡ s.events ++ es)

  submit_records-nil :
      (accepts : IngestedEvent → Bool) (i accepted : ℕ) (rejected : List (ℕ × Rejection))
      (s : Ingest)
      → submit_records uuids accepts now batch_id [] i accepted rejected s
        ≡ (inr (accepted, rejected), s)
  unfolding submit_records
  submit_records-nil accepts i accepted rejected s = refl

  submit_records-invalid :
      (accepts : IngestedEvent → Bool) (nr : NewRecord) (nrs : List NewRecord) (i accepted : ℕ)
      (rejected : List (ℕ × Rejection)) (s : Ingest) (reason : Rejection)
      → validate_new_record nr ≡ some reason
      → submit_records uuids accepts now batch_id (nr ∷ nrs) i accepted rejected s
        ≡ submit_records uuids accepts now batch_id nrs
            (suc i)
            accepted
            (rejected ++ ((i, reason) ∷ []))
            s
  unfolding submit_records
  submit_records-invalid accepts nr nrs i accepted rejected s reason v = rw (v, submit_records) refl

  -- The state after a valid record that the broker accepts.
  abbrev ingested : NewRecord → Ingest → Ingest
  ingested nr s = record s {
    rows = s.rows ++ (keyless (new_event (uuids s.drawn) batch_id now nr) ∷ []);
    events = s.events ++ (new_event (uuids s.drawn) batch_id now nr ∷ []);
    drawn = suc s.drawn;
  }

  submit_records-valid :
      (accepts : IngestedEvent → Bool) (nr : NewRecord) (nrs : List NewRecord) (i accepted : ℕ)
      (rejected : List (ℕ × Rejection)) (s : Ingest)
      → ((e : IngestedEvent) → accepts e ≡ true)
      → validate_new_record nr ≡ none
      → submit_records uuids accepts now batch_id (nr ∷ nrs) i accepted rejected s
        ≡ submit_records uuids accepts now batch_id nrs
            (suc i)
            (suc accepted)
            rejected
            (ingested nr s)
  unfolding submit_records
  submit_records-valid accepts nr nrs i accepted rejected s all v =
      rw (v, submit_records)
        (ap
          (λ (r : (IngestError ⊎ Uuid) × Ingest).
            elim (r.0) as (λ x. (IngestError ⊎ (ℕ × List (ℕ × Rejection))) × Ingest) [
              | inl e ↦ (inl e, r.1)
              | inr id ↦
                  submit_records uuids accepts now batch_id nrs (suc i) (suc accepted) rejected r.1
            ])
          (ingest_one-accepted accepts nr s all))

  submit_records-Left :
      (accepts : IngestedEvent → Bool) (nrs : List NewRecord) (i accepted : ℕ)
      (rejected : List (ℕ × Rejection)) (s : Ingest)
      → ((e : IngestedEvent) → accepts e ≡ true)
      → Left
          (submit_records uuids accepts now batch_id nrs i accepted rejected s)
          (accepted + valid_count nrs)
          (rejected ++ rejections i nrs)
          (events_of s.drawn nrs)
          s
  submit_records-Left accepts [] i accepted rejected s all =
      rw (submit_records-nil accepts i accepted rejected s) (
        rw append-nil (ap (λ (n : ℕ). inr (n, rejected)) (omega arith)),
        refl,
        sym (append-nil s.rows),
        sym (append-nil s.events),
      )
  submit_records-Left accepts (nr ∷ nrs) i accepted rejected s all =
      elim (Option-cases (validate_new_record nr)) [
        | inr (reason, v) ↦
            let ih =
              submit_records-Left accepts nrs (suc i) accepted (rejected ++ ((i, reason) ∷ [])) s
                all in
            rw (submit_records-invalid accepts nr nrs i accepted rejected s reason v) (
              rw (v, valid_count, rejections, events_of)
                (
                  ih.0
                      ∙ ap (λ (rs : List (ℕ × Rejection)). inr (accepted + valid_count nrs, rs))
                          (append_assoc rejected ((i, reason) ∷ []) (rejections (suc i) nrs)),
                  ih.1,
                  ih.2,
                  ih.3,
                ))
        | inl v ↦
            let ih =
              submit_records-Left accepts nrs (suc i) (suc accepted) rejected (ingested nr s) all in
            rw (submit_records-valid accepts nr nrs i accepted rejected s all v) (
              rw (v, valid_count, rejections, events_of)
                (
                  ih.0 ∙ ap (λ (n : ℕ). inr (n, rejected ++ rejections (suc i) nrs)) (omega arith),
                  ih.1,
                  ih.2 ∙ append_assoc s.rows _ _,
                  ih.3 ∙ append_assoc s.events _ _,
                ))
      ]

totalled-inr :
    (id : Uuid) (accepted : ℕ) (rejected : List (ℕ × Rejection))
    (out : (IngestError ⊎ (ℕ × List (ℕ × Rejection))) × Ingest)
    → out.0 ≡ inr (accepted, rejected)
    → totalled id out ≡ (
      inr (record { batch_id = id; accepted_count = accepted; rejected = rejected }),
      record out.1 { batches = set_total (λ n. accepted) id out.1.batches },
    )
unfolding set_batch_total
totalled-inr id accepted rejected (inl e, s) h = cc
totalled-inr id accepted rejected (inr (a, r), s) h =
    ap
      (λ (x : ℕ × List (ℕ × Rejection)). (
        inr (record { batch_id = id; accepted_count = x.0; rejected = x.1 }),
        record s { batches = set_total (λ n. x.0) id s.batches },
      ))
      (inr_inj h)

-- A request with at least one record, over a broker that accepts every event, is answered with a new
-- batch: its count is the number of the valid records; each other record is
-- reported at its place with the reason, and the two add up to the whole; and for each valid record,
-- in order, one row of the batch and one event are added, and no other.
pub submit_batch_complete :
    (uuids : ℕ → Uuid) (accepts : IngestedEvent → Bool) (now : Time) (source : Bytes)
    (nr : NewRecord) (nrs : List NewRecord) (s : Ingest)
    → ((e : IngestedEvent) → accepts e ≡ true)
    → let batch = nr ∷ nrs in
      let (out, s') = submit_batch uuids accepts now source batch s in
      let es = events_of uuids now (uuids s.drawn) (suc s.drawn) batch in
      (out
        ≡ inr (record {
          batch_id = uuids s.drawn;
          accepted_count = valid_count batch;
          rejected = rejections 0 batch;
        }))
      × (valid_count batch + length (rejections 0 batch) ≡ length batch)
      × (length es ≡ valid_count batch)
      × (s'.rows ≡ s.rows ++ map keyless es)
      × (s'.events ≡ s.events ++ es)
unfolding submit_batch create_batch
submit_batch_complete uuids accepts now source nr nrs s all =
    let left = submit_records-Left uuids now (uuids s.drawn) accepts (nr ∷ nrs) 0 0 [] opened all in
    let t =
      totalled-inr (uuids s.drawn) (valid_count (nr ∷ nrs)) (rejections 0 (nr ∷ nrs))
        (submit_records uuids accepts now (uuids s.drawn) (nr ∷ nrs) 0 0 [] opened)
        (left.0 ∙ ap (λ (n : ℕ). inr (n, rejections 0 (nr ∷ nrs))) (omega arith)) in
    (
      ap (λ (o : (IngestError ⊎ BatchResponse) × Ingest). o.0) t,
      count_all 0 (nr ∷ nrs),
      length-events_of uuids now (uuids s.drawn) (nr ∷ nrs) (suc s.drawn),
      ap (λ (o : (IngestError ⊎ BatchResponse) × Ingest). o.1.rows) t ∙ left.2,
      ap (λ (o : (IngestError ⊎ BatchResponse) × Ingest). o.1.events) t ∙ left.3,
    )
  where
    opened : Ingest
    opened = (create_batch uuids (if is_empty source then codes "unknown" else source) s).1
