-- ===== src/Ingestion/Submit.antt =====
-- SubmitEvent and SubmitBatch of services/ingestion/internal/server/server.go.
use momotaro.Prelude.{
  ℕ, suc, ◌==◌, Bool, true, false, Option, none, some, List, [], ◌∷◌, ◌++◌, ◌⊎◌, inl, inr,
  if◌then◌else◌,
}
use momotaro.Prelude.Text.{Bytes, codes}
use momotaro.Platform.HopCodec.{is_empty}
use momotaro.Platform.Time.{Time}
use momotaro.Proto.{Uuid}
use momotaro.Ingestion.{
  NewRecord, Rejection, validate_new_record, IngestedEvent, BatchRow, Ingest, IngestError,
  no_records, record_missing, invalid, create_batch, rolling_batch_id, find_by_idempotency_key,
  insert_record, publish, new_event, published_as, inserted_then,
}

-- `ingestOne`.
unfoldable pub ingest_one :
    (ℕ → Uuid)
    → (IngestedEvent → Bool)
    → Time
    → Uuid
    → NewRecord
    → Bytes
    → Ingest
    → (IngestError ⊎ Uuid) × Ingest
unfolding insert_record publish
ingest_one uuids accepts now batch_id nr key s =
    let id = uuids s.drawn in
    let event = new_event id batch_id now nr in
    inserted_then (λ s'. published_as id (publish accepts event s'))
      (insert_record (record { event = event; idempotency_key = key })
        (record s { drawn = suc s.drawn }))

unfoldable pub set_total : (ℕ → ℕ) → Uuid → List BatchRow → List BatchRow
set_total f id [] = []
set_total f id (b ∷ batches) =
    (if b.id == id then record b { total_records = f b.total_records } else b)
    ∷ set_total f id batches

-- `incrementBatchTotal` and `setBatchTotal`.
unfoldable pub increment_batch_total : Uuid → Ingest → Ingest
unfolding set_total
increment_batch_total id s = record s { batches = set_total (λ n. suc n) id s.batches }

unfoldable pub set_batch_total : Uuid → ℕ → Ingest → Ingest
unfolding set_total
set_batch_total id total s = record s { batches = set_total (λ n. total) id s.batches }

pub record EventResponse : Type 0 where
  pub record_id : Uuid
  pub batch_id : Uuid
  pub deduplicated : Bool

abbrev pub counted : Uuid → (IngestError ⊎ Uuid) × Ingest → (IngestError ⊎ EventResponse) × Ingest
counted batch_id (inl e, s) = (inl e, s)
counted batch_id (inr id, s) = (
  inr (record { record_id = id; batch_id = batch_id; deduplicated = false }),
  increment_batch_total batch_id s,
)

-- What `SubmitEvent` does with an event that is not known.
unfoldable pub submit_new :
    (ℕ → Uuid)
    → (IngestedEvent → Bool)
    → Bytes
    → Time
    → NewRecord
    → Bytes
    → Ingest
    → (IngestError ⊎ EventResponse) × Ingest
unfolding increment_batch_total ingest_one rolling_batch_id validate_new_record
submit_new uuids accepts rolling_source now nr key s = elim (validate_new_record nr) [
  | some reason ↦ (inl (invalid reason), s)
  | none ↦
      let (batch_id, s') = rolling_batch_id uuids rolling_source s in
      counted batch_id (ingest_one uuids accepts now batch_id nr key s')
]

abbrev pub known_event : Uuid × Uuid → EventResponse
known_event (id, batch_id) = record { record_id = id; batch_id = batch_id; deduplicated = true }

-- `SubmitEvent`, of a record that may be missing.
unfoldable pub submit_event :
    (ℕ → Uuid)
    → (IngestedEvent → Bool)
    → Bytes
    → Time
    → Option NewRecord
    → Bytes
    → Ingest
    → (IngestError ⊎ EventResponse) × Ingest
unfolding submit_new find_by_idempotency_key
submit_event uuids accepts rolling_source now none key s = (inl record_missing, s)
submit_event uuids accepts rolling_source now (some nr) key s =
    if is_empty key
    then submit_new uuids accepts rolling_source now nr key s
    else elim (find_by_idempotency_key key s) [
      | some known ↦ (inr (known_event known), s)
      | none ↦ submit_new uuids accepts rolling_source now nr key s
    ]

pub record BatchResponse : Type 0 where
  pub batch_id : Uuid
  pub accepted_count : ℕ
  pub rejected : List (ℕ × Rejection)

-- The loop of `SubmitBatch` from record `i` on, with what was counted so far.
unfoldable pub submit_records :
    (ℕ → Uuid)
    → (IngestedEvent → Bool)
    → Time
    → Uuid
    → List NewRecord
    → ℕ
    → ℕ
    → List (ℕ × Rejection)
    → Ingest
    → (IngestError ⊎ (ℕ × List (ℕ × Rejection))) × Ingest
unfolding ingest_one validate_new_record
submit_records uuids accepts now batch_id [] i accepted rejected s = (inr (accepted, rejected), s)
submit_records uuids accepts now batch_id (nr ∷ nrs) i accepted rejected s =
    elim (validate_new_record nr) [
      | some reason ↦
          submit_records uuids accepts now batch_id nrs (suc i) accepted
            (rejected ++ ((i, reason) ∷ [])) s
      | none ↦
          let (result, s') = ingest_one uuids accepts now batch_id nr [] s in
          elim result [
            | inl e ↦ (inl e, s')
            | inr id ↦
                submit_records uuids accepts now batch_id nrs (suc i) (suc accepted) rejected s'
          ]
    ]

abbrev pub totalled :
    Uuid
    → (IngestError ⊎ (ℕ × List (ℕ × Rejection))) × Ingest
    → (IngestError ⊎ BatchResponse) × Ingest
totalled batch_id (inl e, s) = (inl e, s)
totalled batch_id (inr (accepted, rejected), s) = (
  inr (record { batch_id = batch_id; accepted_count = accepted; rejected = rejected }),
  set_batch_total batch_id accepted s,
)

-- `SubmitBatch`.
unfoldable pub submit_batch :
    (ℕ → Uuid)
    → (IngestedEvent → Bool)
    → Time
    → Bytes
    → List NewRecord
    → Ingest
    → (IngestError ⊎ BatchResponse) × Ingest
submit_batch uuids accepts now source [] s = (inl no_records, s)
submit_batch uuids accepts now source (nr ∷ nrs) s =
    let (batch_id, s') =
      create_batch uuids (if is_empty source then codes "unknown" else source) s in
    totalled batch_id (submit_records uuids accepts now batch_id (nr ∷ nrs) 0 0 [] s')
