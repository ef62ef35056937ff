-- ===== src/Decision/Budget.antt =====
-- services/decision-engine/internal/engine/llm_budget.go, and the routing of classifications in
-- clients.go: a ceiling on the share of records that reach a live model.
pub mod Ceiling
pub mod Answers
use momotaro.Prelude.{
  ℕ, suc, ◌+◌, not, ◌||◌, Bool, true, false, Option, none, some, List, [], ◌∷◌, if◌then◌else◌,
}
use momotaro.Prelude.Int.{ℤ, pos}
use momotaro.Platform.Float.{Float}
use momotaro.Decision.Engine.{ClassifyResponse}

-- The counts stay far below 2^63.
pub record LlmBudget (F : Type 0) : Type 0 where
  pub rate : F
  pub total : ℕ
  pub llm_calls : ℕ

abbrev pub new_llm_budget : {F : Type 0} → F → LlmBudget F
new_llm_budget rate = record { rate = rate; total = 0; llm_calls = 0 }

-- What `classify` gives: the response, and whether it is marked as out of quota.
pub record Classified (F : Type 0) : Type 0 where
  pub response : Option (ClassifyResponse F)
  pub exhausted : Bool

module _ {F : Type 0} ⦃fl : Float F⦄ where
  -- The share of live calls if one more is made.
  abbrev pub would_be : ℕ → ℕ → F
  would_be calls total = fl.div (fl.of_int (pos calls)) (fl.of_int (pos total))

  unfoldable pub consider : Bool → LlmBudget F → Bool × LlmBudget F
  consider eligible b =
      let counted : LlmBudget F = record b { total = b.total + 1 } in
      if not eligible || fl.le b.rate (fl.of_int (pos 0))
      then (false, counted)
      else if fl.lt b.rate (would_be (b.llm_calls + 1) (b.total + 1))
      then (false, counted)
      else (true, record counted { llm_calls = b.llm_calls + 1 })

  -- `classify`, of the answers to the forced rules call and to the live one.
  unfoldable pub classify :
      F
      → Option (ClassifyResponse F)
      → Option (ClassifyResponse F)
      → LlmBudget F
      → Classified F × LlmBudget F
  unfolding consider
  classify threshold rules live b = elim rules [
    | none ↦ (record { response = none; exhausted = false }, b)
    | some r ↦
        let eligible = fl.lt r.confidence threshold in
        let (granted, b') = consider eligible b in
        if granted
        then (record { response = live; exhausted = false }, b')
        else (record { response = some r; exhausted = eligible }, b')
  ]

  unfoldable pub consider_all : List Bool → LlmBudget F → LlmBudget F
  unfolding consider
  consider_all [] b = b
  consider_all (e ∷ es) b = consider_all es (consider e b).1
