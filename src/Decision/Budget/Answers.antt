-- ===== src/Decision/Budget/Answers.antt =====
-- Which answer `classify` (clients.go) uses.
use momotaro.Prelude.{◌+◌, ◌≡◌, refl, ◌⊎◌, inl, inr, true, false, Option, some, Bool-cases}
use momotaro.Prelude.Int.{pos}
use momotaro.Platform.Float.{Float}
use momotaro.Decision.Engine.{ClassifyResponse}
use momotaro.Decision.Budget.{LlmBudget, would_be, consider, classify}

module _ (F : Type 0) ⦃fl : Float F⦄ where
  -- Of a classification that the rules engine answered: either its confidence is below the threshold,
  -- the live answer is used, error or not, and one live call is counted; or the rules' answer is
  -- used, no live call is counted, and it is marked as exhausted exactly when its confidence is below
  -- the threshold. The record itself is counted either way.
  pub classify-routes :
      (threshold : F) (r : ClassifyResponse F) (live : Option (ClassifyResponse F))
      (b : LlmBudget F)
      → let (c, b') = classify threshold (some r) live b in
        (b'.total ≡ b.total + 1)
        × (((c.response ≡ live)
              × (fl.lt r.confidence threshold ≡ true)
              × (b'.llm_calls ≡ b.llm_calls + 1)
              × (c.exhausted ≡ false))
            ⊎ ((c.response ≡ some r)
                × (b'.llm_calls ≡ b.llm_calls)
                × (c.exhausted ≡ fl.lt r.confidence threshold)))
  unfolding classify consider
  classify-routes threshold r live b = elim (Bool-cases (fl.lt r.confidence threshold)) [
    | inr sure ↦ rw sure (refl, inr (refl, refl, refl))
    | inl unsure ↦ elim (Bool-cases (fl.le b.rate (fl.of_int (pos 0)))) [
      | inl off ↦ rw (unsure, off) (refl, inr (refl, refl, refl))
      | inr on ↦ elim (Bool-cases (fl.lt b.rate (would_be (b.llm_calls + 1) (b.total + 1)))) [
        | inl over ↦ rw (unsure, on, over) (refl, inr (refl, refl, refl))
        | inr fits ↦ rw (unsure, on, fits) (refl, inl (refl, refl, refl, refl))
      ]
    ]
  ]
