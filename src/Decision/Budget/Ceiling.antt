-- ===== src/Decision/Budget/Ceiling.antt =====
-- The share of live calls never exceeds the rate (llm_budget.go).
use momotaro.Prelude.{
  ℕ, ◌+◌, ◌≤◌, ◌≡◌, refl, ◌⊎◌, inl, inr, not, ◌||◌, Bool, List, [], ◌∷◌, arith, Bool-cases,
}
use momotaro.Prelude.Int.{pos}
use momotaro.Platform.Float.{Float, IsNumber, ◌≼◌, IsOrdered}
use momotaro.Decision.Budget.{LlmBudget, would_be, consider, consider_all, new_llm_budget}

-- Quotients of counts are numbers, and fall as the divisor grows: IEEE division rounds monotonically.
pub record HasRatios (F : Type 0) ⦃fl : Float F⦄ : Type 0 where
  pub ratio_number : (n m : ℕ) → 1 ≤ m → IsNumber (would_be {F = F} n m)
  pub ratio_falls : (n m k : ℕ) → 1 ≤ m → m ≤ k → would_be {F = F} n k ≼ would_be n m

module _ {F : Type 0} ⦃fl : Float F⦄ (laws : IsOrdered F) (ratios : HasRatios F) where
  open laws use {le_trans, lt-eq-not-le}
  open ratios use {ratio_number, ratio_falls}

  -- No live call yet, or the share of live calls is at most the rate.
  abbrev pub Within : LlmBudget F → Type 0
  Within b = (b.llm_calls ≡ 0) ⊎ ((1 ≤ b.total) × (would_be b.llm_calls b.total ≼ b.rate))

  counted-Within : (b : LlmBudget F) → Within b → Within (record b { total = b.total + 1 })
  counted-Within b (inl e) = inl e
  counted-Within b (inr (some_total, share)) = inr (
    omega arith,
    le_trans (would_be b.llm_calls (b.total + 1)) (would_be b.llm_calls b.total) b.rate
        (ratio_falls b.llm_calls b.total (b.total + 1) some_total (omega arith)) share,
  )

  consider-Within :
      (eligible : Bool) (b : LlmBudget F)
      → IsNumber b.rate
      → Within b
      → Within (consider eligible b).1 × ((consider eligible b).1.rate ≡ b.rate)
  unfolding consider
  consider-Within eligible b number within =
      elim (Bool-cases (not eligible || fl.le b.rate (fl.of_int (pos 0)))) [
        | inl off ↦ rw off (counted-Within b within, refl)
        | inr on ↦ elim (Bool-cases (fl.lt b.rate (would_be (b.llm_calls + 1) (b.total + 1)))) [
          | inl over ↦ rw (on, over) (counted-Within b within, refl)
          | inr fits ↦
              let law =
                lt-eq-not-le b.rate (would_be (b.llm_calls + 1) (b.total + 1)) number
                  (ratio_number (b.llm_calls + 1) (b.total + 1) (omega arith)) in
              let share : would_be (b.llm_calls + 1) (b.total + 1) ≼ b.rate =
                ground (arith, law, fits) in
              rw (on, fits) (inr (omega arith, share), refl)
        ]
      ]

  all-Within :
      (es : List Bool) (b : LlmBudget F) → IsNumber b.rate → Within b → Within (consider_all es b)
  unfolding consider_all
  all-Within [] b number within = within
  all-Within (e ∷ es) b number within =
      let (after, same) = consider-Within e b number within in
      all-Within es (consider e b).1 (rw same number) after

  -- Whatever records come, if the rate is a number, the share of live calls among the records
  -- considered so far is at most the rate, or there were none.
  pub consider_all-Within :
      (es : List Bool) (rate : F) → IsNumber rate → Within (consider_all es (new_llm_budget rate))
  consider_all-Within es rate number = all-Within es (new_llm_budget rate) number (inl refl)
