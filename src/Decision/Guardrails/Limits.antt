-- ===== src/Decision/Guardrails/Limits.antt =====
-- What the budgets, the cooldown and the recovery window permit (guardrails.go).
use momotaro.Prelude.{◌^◌, ◌-◌, ◌≡◌, ◌≢◌, ◌↔◌, true, Option, none, some, [], arith}
use momotaro.Prelude.Int.{ℤ, pos, ◌≤ℤ◌, ◌<ℤ◌, sub_ℕ, ltb_ℤ, ltb-saturate64}
use momotaro.Platform.Time.{Time, since}
use momotaro.Proto.{ActionType}
use momotaro.Decision.Guardrails.{
  recovery_window_closed, retry_budget_spent, contact_blocked, cooling, GuardrailConfig,
  AttemptHistory, spending_actions, apply_guardrails, allows, validate, permitted_actions,
  permitted_or_escalate, reason,
}

-- An independent reading of docs/PRD.md section 11.
pub record InWindow (h : AttemptHistory) (cfg : GuardrailConfig) (now : Time) : Type 0 where
  pub young : sub_ℕ now h.record_created_at <ℤ cfg.recovery_window

abbrev pub Rested : Option Time → GuardrailConfig → Time → Type 0
Rested none cfg now = Unit
Rested (some last) cfg now = cfg.contact_cooldown ≤ℤ sub_ℕ now last

abbrev pub WithinLimits : ActionType → AttemptHistory → GuardrailConfig → Time → Type 0
WithinLimits ActionType.retry h cfg now = pos h.retries <ℤ cfg.max_retries
WithinLimits ActionType.nudge_method_update h cfg now =
    (pos h.contacts <ℤ cfg.max_contacts) × Rested h.last_contact_at cfg now
WithinLimits ActionType.nudge_reminder h cfg now =
    (pos h.contacts <ℤ cfg.max_contacts) × Rested h.last_contact_at cfg now
WithinLimits _ h cfg now = Unit

-- The durations of a configuration are `int64` values.
pub record Representable (cfg : GuardrailConfig) : Type 0 where
  pub window_fits : cfg.recovery_window ≤ℤ pos (2 ^ 63 - 1)
  pub cooldown_fits : cfg.contact_cooldown ≤ℤ pos (2 ^ 63 - 1)

-- A measured gap is below a positive `int64` duration exactly when the true gap is.
since_lt_iff :
    (t u : Time) (w : ℤ)
    → pos 1 ≤ℤ w
    → w ≤ℤ pos (2 ^ 63 - 1)
    → (ltb_ℤ (since t u) w ≡ true) ↔ (sub_ℕ t u <ℤ w)
since_lt_iff t u w l h = rw (ltb-saturate64 (sub_ℕ t u) w (omega arith) h) (ground arith)

IsSane : GuardrailConfig → Type 0
IsSane c =
    (pos 1 ≤ℤ c.max_retries)
    × (pos 1 ≤ℤ c.max_contacts)
    × (pos 1 ≤ℤ c.contact_cooldown)
    × (pos 1 ≤ℤ c.recovery_window)

validate-IsSane : (c : GuardrailConfig) → validate c ≡ none → IsSane c
unfolding validate IsSane
validate-IsSane c h = ground arith

module _ (h : AttemptHistory) (cfg : GuardrailConfig) (now : Time) where
  module _ (v : validate cfg ≡ none) (r : Representable cfg) where
    window_iff : (recovery_window_closed h cfg now ≡ none) ↔ InWindow h cfg now
    unfolding recovery_window_closed IsSane
    window_iff =
        let sane = validate-IsSane cfg v in
        ground
          (arith, since_lt_iff now h.record_created_at cfg.recovery_window sane.3 r.window_fits)

    cooling_iff : (last : Option Time) → (cooling last cfg now ≡ none) ↔ Rested last cfg now
    unfolding IsSane
    cooling_iff none = ground arith
    cooling_iff (some last) =
        let sane = validate-IsSane cfg v in
        ground (arith, since_lt_iff now last cfg.contact_cooldown sane.2 r.cooldown_fits)

    contact_iff :
        (contact_blocked h cfg now ≡ none)
        ↔ ((pos h.contacts <ℤ cfg.max_contacts) × Rested h.last_contact_at cfg now)
    unfolding contact_blocked
    contact_iff = ground (arith, cooling_iff h.last_contact_at)

  retry_iff : (retry_budget_spent h cfg ≡ none) ↔ (pos h.retries <ℤ cfg.max_retries)
  unfolding retry_budget_spent
  retry_iff = ground arith

abbrev pub Spends : ActionType → Type 0
Spends ActionType.retry = Unit
Spends ActionType.nudge_method_update = Unit
Spends ActionType.nudge_reminder = Unit
Spends _ = ⊥

-- Under a valid configuration the guardrails allow a spending action exactly when the record is
-- inside its recovery window and the action's own budget and cooldown leave room for it.
pub allows-apply_guardrails :
    (a : ActionType) (h : AttemptHistory) (cfg : GuardrailConfig) (now : Time)
    → Spends a
    → validate cfg ≡ none
    → Representable cfg
    → (allows (apply_guardrails h cfg now) a ≡ true)
      ↔ (InWindow h cfg now × WithinLimits a h cfg now)
unfolding apply_guardrails allows
allows-apply_guardrails ActionType.retry h cfg now s v r =
    ground (arith, window_iff h cfg now v r, retry_iff h cfg now, contact_iff h cfg now v r)
allows-apply_guardrails ActionType.nudge_method_update h cfg now s v r =
    ground (arith, window_iff h cfg now v r, retry_iff h cfg now, contact_iff h cfg now v r)
allows-apply_guardrails ActionType.nudge_reminder h cfg now s v r =
    ground (arith, window_iff h cfg now v r, retry_iff h cfg now, contact_iff h cfg now v r)
allows-apply_guardrails _ h cfg now s v r = absurd s

-- Once a record is as old as its recovery window, under a valid configuration, no spending action
-- is permitted, and any spending action that is wanted becomes an escalation with a reason.
pub closed_window_stops :
    (a : ActionType) (h : AttemptHistory) (cfg : GuardrailConfig) (now : Time)
    → Spends a
    → validate cfg ≡ none
    → Representable cfg
    → cfg.recovery_window ≤ℤ sub_ℕ now h.record_created_at
    → let v = apply_guardrails h cfg now in
      (permitted_actions v ≡ [])
      × ((permitted_or_escalate a v).0 ≡ ActionType.escalate)
      × ((permitted_or_escalate a v).1 ≢ none)
unfolding apply_guardrails permitted_actions permitted_or_escalate allows reason
closed_window_stops ActionType.retry h cfg now s v r old = ground (arith, window_iff h cfg now v r)
closed_window_stops ActionType.nudge_method_update h cfg now s v r old =
    ground (arith, window_iff h cfg now v r)
closed_window_stops ActionType.nudge_reminder h cfg now s v r old =
    ground (arith, window_iff h cfg now v r)
closed_window_stops _ h cfg now s v r old = absurd s

-- A valid configuration permits every spending action on a record that was created this instant
-- and has no attempt behind it.
pub fresh_record_permitted :
    (cfg : GuardrailConfig) (now : Time)
    → validate cfg ≡ none
    → Representable cfg
    → permitted_actions (
        apply_guardrails
          (record { retries = 0; contacts = 0; last_contact_at = none; record_created_at = now })
          cfg
          now)
      ≡ spending_actions
unfolding apply_guardrails permitted_actions allows contact_blocked IsSane
fresh_record_permitted cfg now v r =
    let h : AttemptHistory = record {
      retries = 0;
      contacts = 0;
      last_contact_at = none;
      record_created_at = now;
    } in
    let sane = validate-IsSane cfg v in
    ground (arith, window_iff h cfg now v r, retry_iff h cfg now)
