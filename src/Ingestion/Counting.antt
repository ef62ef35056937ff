-- ===== src/Ingestion/Counting.antt =====
-- The valid records of a request to SubmitBatch, and the others.
use momotaro.Prelude.{
  ℕ, suc, ◌+◌, ◌≡◌, refl, ap, none, some, List, [], ◌∷◌, ◌⊎◌, inl, inr, arith, length, Option-cases,
}
use momotaro.Ingestion.{
  NewRecord, Rejection, IngestedEvent, IngestedRow, IngestError, validate_new_record,
}

-- How many records of a request are valid.
abbrev pub valid_count : List NewRecord → ℕ
valid_count [] = 0
valid_count (nr ∷ nrs) = elim (validate_new_record nr) [
  | none ↦ suc (valid_count nrs)
  | some reason ↦ valid_count nrs
]

-- The records that are not, by their places from `i` on, with the reasons.
abbrev pub rejections : ℕ → List NewRecord → List (ℕ × Rejection)
rejections i [] = []
rejections i (nr ∷ nrs) = elim (validate_new_record nr) [
  | none ↦ rejections (suc i) nrs
  | some reason ↦ (i, reason) ∷ rejections (suc i) nrs
]

pub inr_inj :
    {x y : ℕ × List (ℕ × Rejection)}
    → ◌≡◌ {A = IngestError ⊎ (ℕ × List (ℕ × Rejection))} (inr x) (inr y)
    → x ≡ y
inr_inj h = cc

module _ (nr : NewRecord) (nrs : List NewRecord) where
  pub valid_count-valid :
      validate_new_record nr ≡ none → valid_count (nr ∷ nrs) ≡ suc (valid_count nrs)
  valid_count-valid v = rw (v, valid_count) refl

  pub valid_count-invalid :
      (reason : Rejection)
      → validate_new_record nr ≡ some reason
      → valid_count (nr ∷ nrs) ≡ valid_count nrs
  valid_count-invalid reason v = rw (v, valid_count) refl

  pub rejections-valid :
      (i : ℕ) → validate_new_record nr ≡ none → rejections i (nr ∷ nrs) ≡ rejections (suc i) nrs
  rejections-valid i v = rw (v, rejections) refl

  pub rejections-invalid :
      (i : ℕ) (reason : Rejection)
      → validate_new_record nr ≡ some reason
      → rejections i (nr ∷ nrs) ≡ (i, reason) ∷ rejections (suc i) nrs
  rejections-invalid i reason v = rw (v, rejections) refl

pub count_all :
    (i : ℕ) (nrs : List NewRecord) → valid_count nrs + length (rejections i nrs) ≡ length nrs
count_all i [] = omega arith
count_all i (nr ∷ nrs) = elim (Option-cases (validate_new_record nr)) [
  | inl v ↦ omega (
    arith,
    valid_count-valid nr nrs v,
    ap length (rejections-valid nr nrs i v),
    count_all (suc i) nrs,
  )
  | inr (reason, v) ↦ omega (
    arith,
    valid_count-invalid nr nrs reason v,
    ap length (rejections-invalid nr nrs i reason v),
    count_all (suc i) nrs,
  )
]

-- A row with no idempotency key.
abbrev pub keyless : IngestedEvent → IngestedRow
keyless e = record { event = e; idempotency_key = [] }
