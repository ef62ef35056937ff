-- ===== src/Classifier/Chain/Deadlines.antt =====
-- services/classifier/internal/provider/budget.go: the time that a rung may take.
use momotaro.Prelude.{
  ℕ, ◌+◌, ◌-◌, ◌^◌, leb, ltb, Bool-cases, if◌then◌else◌, ◌≤◌, ◌<◌, ◌≡◌, ◌⊎◌, inl, inr, false, none,
  some, arith,
}
use momotaro.Prelude.Int.{pos, sub_ℕ, wrap64, wrap64_id, saturate64, ◌-ℤ◌}
use momotaro.Platform.Time.{Time, since}
use momotaro.Classifier.{rung_ctx}

-- Within 292 years nothing saturates and nothing wraps.
left_after :
    (deadline reserve t : ℕ)
    → deadline < t + 2 ^ 63
    → t + reserve < deadline + 2 ^ 63
    → wrap64 (since deadline t -ℤ pos reserve) ≡ sub_ℕ deadline (t + reserve)
left_after deadline reserve t h k =
    rw (unsaturated, difference)
      (wrap64_id (sub_ℕ deadline (t + reserve)) (ground arith) (ground arith))
  where
    unsaturated : saturate64 (sub_ℕ deadline t) ≡ sub_ℕ deadline t
    unsaturated = unfold saturate64 in ground arith

    difference : sub_ℕ deadline t -ℤ pos reserve ≡ sub_ℕ deadline (t + reserve)
    difference = unfold ◌-ℤ◌ in ground arith

abbrev least : ℕ → ℕ → ℕ
least a b = if ltb b a then b else a

skipped :
    (deadline per_rung reserve t : ℕ)
    → deadline < t + 2 ^ 63
    → t + reserve < deadline + 2 ^ 63
    → deadline ≤ t + reserve
    → rung_ctx (some deadline) (pos per_rung) (pos reserve) false t ≡ none
unfolding rung_ctx
skipped deadline per_rung reserve t h k late = rw (left_after deadline reserve t h k) (ground arith)

afforded :
    (deadline per_rung reserve t : ℕ)
    → deadline < t + 2 ^ 63
    → t + reserve < deadline + 2 ^ 63
    → t + reserve < deadline
    → rung_ctx (some deadline) (pos per_rung) (pos reserve) false t
      ≡ some (some (t + least per_rung (deadline - (t + reserve))))
unfolding rung_ctx
afforded deadline per_rung reserve t h k early =
    rw (left_after deadline reserve t h k) (ground arith)

-- With a caller's deadline less than 292 years away and a reserve that leaves an `int64`, a rung that
-- is not terminal is skipped exactly when no more than the reserve is left; otherwise its own
-- deadline lies ahead, leaves the reserve, and is at most the rung's timeout away.
pub rung_ctx_reserves :
    (deadline per_rung reserve t : ℕ)
    → deadline < t + 2 ^ 63
    → t + reserve < deadline + 2 ^ 63
    → 0 < per_rung
    → (rung_ctx (some deadline) (pos per_rung) (pos reserve) false t ≡ none)
        × (deadline ≤ t + reserve)
      ⊎ ((d : Time) × (rung_ctx (some deadline) (pos per_rung) (pos reserve) false t
            ≡ some (some d))
          × (t < d)
          × (d + reserve ≤ deadline)
          × (d ≤ t + per_rung))
rung_ctx_reserves deadline per_rung reserve t h k p =
    elim (Bool-cases (leb deadline (t + reserve))) [
      | inl late ↦ inl (skipped deadline per_rung reserve t h k (ground arith), ground arith)
      | inr early ↦
          let d : Time = t + least per_rung (deadline - (t + reserve)) in
          inr (
            d,
            afforded deadline per_rung reserve t h k (ground arith),
            ground arith,
            ground arith,
            ground arith,
          )
    ]
