-- ===== src/Ingestion.antt =====
-- services/ingestion/internal/server: how events enter the system. validate.go, record.go, events.go
-- and store.go. The broker says which events it accepts; ids come from a supply of UUIDs;
-- other failures of the database are left out.
pub mod Submit
pub mod Submission
pub mod Repeats
pub mod Counting
pub mod Batches
pub mod Listing
pub mod Later
use momotaro.Prelude.{
  ℕ, suc, ◌+◌, ◌==◌, ◌&&◌, Bool, true, false, not, Option, none, some, List, [], ◌∷◌, ◌++◌, ◌⊎◌,
  inl, inr, if◌then◌else◌,
}
use momotaro.Prelude.Int.{ℤ, pos, leb_ℤ}
use momotaro.Prelude.Text.{Bytes, codes, same}
use momotaro.Platform.HopCodec.{is_empty}
use momotaro.Platform.Time.{Time}
use momotaro.Proto.{Uuid, RecordType}

-- The error taxonomy of a payment, copied as it is.
pub record ErrorTaxonomy : Type 0 where
  pub code : Bytes
  pub description : Bytes
  pub source : Bytes
  pub step : Bytes
  pub reason : Bytes

-- ingestion.v1.NewRecord.
pub record NewRecord : Type 0 where
  pub type : RecordType
  pub amount_paise : ℤ
  pub currency : Bytes
  pub failure_code : Bytes
  pub instrument_ref : Bytes
  pub occurred_at : Option Time
  pub taxonomy : ErrorTaxonomy

pub data Rejection : Type 0 where
  type_required amount_not_positive failure_code_required : Rejection

abbrev pub is_unspecified_type : RecordType → Bool
is_unspecified_type RecordType.unspecified = true
is_unspecified_type _ = false

-- `validateNewRecord`, `none` if there is nothing to object to.
unfoldable pub validate_new_record : NewRecord → Option Rejection
validate_new_record nr =
    if is_unspecified_type nr.type
    then some type_required
    else if leb_ℤ nr.amount_paise (pos 0)
    then some amount_not_positive
    else if is_empty nr.failure_code
    then some failure_code_required
    else none

abbrev pub currency_or_default : Bytes → Bytes
currency_or_default c = if is_empty c then codes "INR" else c

abbrev pub resolve_created_at : Time → NewRecord → Time
resolve_created_at now nr = elim nr.occurred_at [ some t ↦ t | none ↦ now ]

-- The payload of raw.events.
pub record IngestedEvent : Type 0 where
  pub record_id : Uuid
  pub batch_id : Uuid
  pub type : RecordType
  pub amount_paise : ℤ
  pub currency : Bytes
  pub failure_code : Bytes
  pub instrument_ref : Bytes
  pub created_at : Time
  pub taxonomy : ErrorTaxonomy

-- A row of the table `record`: the event's columns, and the idempotency key, which is empty for NULL.
pub record IngestedRow : Type 0 where
  pub event : IngestedEvent
  pub idempotency_key : Bytes

pub record BatchRow : Type 0 where
  pub id : Uuid
  pub source : Bytes
  pub total_records : ℕ

-- The tables in the order of their rows, what raw.events holds, and how many UUIDs were drawn.
pub record Ingest : Type 0 where
  pub batches : List BatchRow
  pub rows : List IngestedRow
  pub events : List IngestedEvent
  pub drawn : ℕ

pub data IngestError : Type 0 where
  no_records record_missing duplicate_key publish_failed : IngestError
  invalid : Rejection → IngestError

-- `createBatch`.
unfoldable pub create_batch : (ℕ → Uuid) → Bytes → Ingest → Uuid × Ingest
create_batch uuids source s = (
  uuids s.drawn,
  record s {
    batches = s.batches ++ (record { id = uuids s.drawn; source = source; total_records = 0 } ∷ []);
    drawn = suc s.drawn;
  },
)

abbrev pub batch_of_source : Bytes → List BatchRow → Option Uuid
batch_of_source source [] = none
batch_of_source source (b ∷ batches) =
    let rest = batch_of_source source batches in if same b.source source then some b.id else rest

-- `rollingBatchID`: the oldest batch of the rolling source, or a new one.
unfoldable pub rolling_batch_id : (ℕ → Uuid) → Bytes → Ingest → Uuid × Ingest
unfolding create_batch
rolling_batch_id uuids rolling_source s = elim (batch_of_source rolling_source s.batches) [
  | some id ↦ (id, s)
  | none ↦ create_batch uuids rolling_source s
]

unfoldable pub row_of_key : Bytes → List IngestedRow → Option IngestedRow
row_of_key key [] = none
row_of_key key (r ∷ rows) =
    let rest = row_of_key key rows in if same r.idempotency_key key then some r else rest

-- `findByIdempotencyKey`, of a key that is not empty.
unfoldable pub find_by_idempotency_key : Bytes → Ingest → Option (Uuid × Uuid)
unfolding row_of_key
find_by_idempotency_key key s = elim (row_of_key key s.rows) [
  | none ↦ none
  | some r ↦ some (r.event.record_id, r.event.batch_id)
]

abbrev pub is_taken : Option IngestedRow → Bool
is_taken none = false
is_taken (some r) = true

-- `insertRecord`, under the unique index on the keys that are not NULL.
unfoldable pub insert_record : IngestedRow → Ingest → (IngestError ⊎ Unit {0}) × Ingest
unfolding row_of_key
insert_record row s =
    if not (is_empty row.idempotency_key) && is_taken (row_of_key row.idempotency_key s.rows)
    then (inl duplicate_key, s)
    else (inr tt, record s { rows = s.rows ++ (row ∷ []) })

-- `Publish`.
unfoldable pub publish :
    (IngestedEvent → Bool) → IngestedEvent → Ingest → (IngestError ⊎ Unit {0}) × Ingest
publish accepts e s =
    if accepts e
    then (inr tt, record s { events = s.events ++ (e ∷ []) })
    else (inl publish_failed, s)

abbrev pub new_event : Uuid → Uuid → Time → NewRecord → IngestedEvent
new_event id batch_id now nr = record {
  record_id = id;
  batch_id = batch_id;
  type = nr.type;
  amount_paise = nr.amount_paise;
  currency = currency_or_default nr.currency;
  failure_code = nr.failure_code;
  instrument_ref = nr.instrument_ref;
  created_at = resolve_created_at now nr;
  taxonomy = nr.taxonomy;
}

abbrev pub published_as : Uuid → (IngestError ⊎ Unit {0}) × Ingest → (IngestError ⊎ Uuid) × Ingest
published_as id (inl e, s) = (inl e, s)
published_as id (inr _, s) = (inr id, s)

abbrev pub inserted_then :
    (Ingest → (IngestError ⊎ Uuid) × Ingest)
    → (IngestError ⊎ Unit {0}) × Ingest
    → (IngestError ⊎ Uuid) × Ingest
inserted_then f (inl e, s) = (inl e, s)
inserted_then f (inr _, s) = f s
