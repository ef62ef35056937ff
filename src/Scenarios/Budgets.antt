-- ===== src/Scenarios/Budgets.antt =====
-- The ceiling on live calls with fixed-point shares.
use momotaro.Prelude.{ℕ, ◌*◌, ◌/◌, ◌≤◌, ◌≡◌, ◌⊎◌, refl, true, false, some, [], ◌∷◌, arith, leb}
use native.Mathlib.Nat.{mul-le-mul_left, div-mul-le_self, le-div_iff_mul-le}
use momotaro.Decision.Budget.Answers.{classify-routes}
use momotaro.Decision.Budget.{classify, consider, consider_all, new_llm_budget}
use momotaro.Decision.Budget.Ceiling.{HasRatios, Within, consider_all-Within}
use momotaro.Scenarios.{Fixed, answer, fixed, fixed_ordered}

-- A quotient falls as the divisor grows.
div-falls : (x m k : ℕ) → 1 ≤ m → m ≤ k → x / k ≤ x / m
div-falls x m k some_m below =
    let times : x / k * m ≤ x / k * k = mul-le-mul_left (x / k) below in
    let whole : x / k * k ≤ x = div-mul-le_self x k in
    (le-div_iff_mul-le {k = m} {x = x / k} {y = x} (omega arith)).1 (omega (arith, times, whole))

leb_refl : (x : ℕ) → leb x x ≡ true
leb_refl x = ground arith

leb_of_le : (x y : ℕ) → x ≤ y → leb x y ≡ true
leb_of_le x y h = ground arith

fixed_ratios : HasRatios Fixed
unfolding fixed
fixed_ratios = record {
  ratio_number = λ n m h. leb_refl (n * 10000 * 10000 / (m * 10000));
  ratio_falls = λ n m k h l.
      leb_of_le (n * 10000 * 10000 / (k * 10000)) (n * 10000 * 10000 / (m * 10000))
        (div-falls (n * 10000 * 10000) (m * 10000) (k * 10000) (omega arith) (omega arith));
}

-- Half of the records may reach a model.
consider_all-Within_example :
    Within fixed_ordered fixed_ratios
      (consider_all (true ∷ true ∷ false ∷ true ∷ []) (new_llm_budget 5000))
consider_all-Within_example =
    consider_all-Within fixed_ordered fixed_ratios (true ∷ true ∷ false ∷ true ∷ []) 5000
      (unfold fixed in refl)

-- The first is refused, the second granted, the last granted again.
calls_granted :
    (consider_all (true ∷ true ∷ false ∷ true ∷ []) (new_llm_budget {F = Fixed} 5000)).llm_calls ≡ 2
unfolding consider_all consider fixed
calls_granted = refl

classify-routes_example :
    let (c, b) =
      classify 9500
        (some answer)
        (some (record answer { confidence = 9900 }))
        (new_llm_budget {F = Fixed} 10000) in
    (b.total ≡ 1)
    × (((c.response ≡ some (record answer { confidence = 9900 }))
          × (fixed.lt answer.confidence 9500 ≡ true)
          × (b.llm_calls ≡ 1)
          × (c.exhausted ≡ false))
        ⊎ ((c.response ≡ some answer)
            × (b.llm_calls ≡ 0)
            × (c.exhausted ≡ fixed.lt answer.confidence 9500)))
classify-routes_example =
    classify-routes Fixed 9500 answer (some (record answer { confidence = 9900 }))
      (new_llm_budget 10000)
