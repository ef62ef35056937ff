-- ===== src/Decision/Guardrails/Outage.antt =====
-- The downtime rule: it takes away a retry for a while, and nothing else (guardrails.go).
use momotaro.Prelude.{
  Option-cases, inl, inr, refl, ◌≤◌, ◌<◌, ◌≡◌, ◌≢◌, ◌↔◌, true, false, none, some, arith,
}
use momotaro.Platform.Time.{Time}
use momotaro.Proto.{ActionType, is_action}
use momotaro.Decision.Guardrails.{
  GuardrailReason, downtime_blocks_retry, GuardrailVerdict, DowntimeStatus, lasts_until,
  apply_downtime_guardrail, allows,
}

-- A downtime that is known, has begun, and has passed neither its published end nor, without
-- one, six hours.
pub record IsActive (d : DowntimeStatus) (now : Time) : Type 0 where
  pub known : d.present ≡ true
  pub begun : d.begin ≤ now
  pub lasting : now < lasts_until d d.end

blocks-IsActive :
    (d : DowntimeStatus) (now : Time) {r : GuardrailReason}
    → downtime_blocks_retry d now ≡ some r
    → IsActive d now
unfolding downtime_blocks_retry
blocks-IsActive d now h = ground arith

not-blocks-IsActive :
    (d : DowntimeStatus) (now : Time) → downtime_blocks_retry d now ≡ none → ¬ IsActive d now
unfolding downtime_blocks_retry
not-blocks-IsActive d now h = λ act. ground (arith, act.known, act.begun, act.lasting)

retry_distinct : (a : ActionType) → a ≢ ActionType.retry → is_action ActionType.retry a ≡ false
retry_distinct ActionType.retry h = absurd (h refl)
retry_distinct _ h = refl

-- The downtime rule leaves every other action as it was; it allows a retry exactly when the
-- verdict did and no downtime is active; and it marks the verdict exactly when it took the retry
-- away itself.
pub downtime_holds_only_retry :
    (v : GuardrailVerdict) (d : DowntimeStatus) (now : Time)
    → v.retry_held_by_downtime ≡ false
    → let w = apply_downtime_guardrail v d now in
      ((a : ActionType) → a ≢ ActionType.retry → allows w a ≡ allows v a)
      × ((allows w ActionType.retry ≡ true)
          ↔ ((allows v ActionType.retry ≡ true) × ¬ IsActive d now))
      × ((w.retry_held_by_downtime ≡ true) ↔ ((allows v ActionType.retry ≡ true) × IsActive d now))
unfolding apply_downtime_guardrail
downtime_holds_only_retry v d now h = elim (Option-cases (downtime_blocks_retry d now)) [
  | inl free ↦
      let idle = not-blocks-IsActive d now free in
      (λ a ne. ground arith, ground arith, ground arith)
  | inr (r, held) ↦
      let active = blocks-IsActive d now held in
      (
        λ a ne. unfold allows in ground (arith, retry_distinct a ne),
        unfold allows in ground arith,
        ground arith,
      )
]
