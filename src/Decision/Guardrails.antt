-- ===== src/Decision/Guardrails.antt =====
-- services/decision-engine/internal/engine/guardrails.go: retry budget, contact cap and cooldown,
-- recovery window, and the downtime rule. A map from actions to reasons is an association list,
-- written at distinct keys only; `fmt.Sprintf` texts are kept as the format and its arguments.
pub mod Limits
pub mod Outage
use momotaro.Prelude.{
  ℕ, suc, ◌+◌, ◌*◌, Bool, true, false, not, Option, none, some, List, [], ◌∷◌, String, leb, ltb,
  if◌then◌else◌,
}
use momotaro.Prelude.Int.{ℤ, pos, ltb_ℤ, leb_ℤ}
use momotaro.Platform.Time.{Time, Duration, nanos_per_hour, add, since, before}
use momotaro.Proto.{ActionType, is_action, is_retry}

pub record GuardrailConfig : Type 0 where
  pub max_retries : ℤ
  pub max_contacts : ℤ
  pub contact_cooldown : Duration
  pub recovery_window : Duration

-- The counts are SQL counts, so never negative.
pub record AttemptHistory : Type 0 where
  pub retries : ℕ
  pub contacts : ℕ
  pub last_contact_at : Option Time
  pub record_created_at : Time

pub data GuardrailReason : Type 0 where
  recovery_window_closed_for : Duration → Duration → GuardrailReason
  retry_budget_exhausted : ℕ → ℤ → GuardrailReason
  contact_cap_reached : ℕ → ℤ → GuardrailReason
  contact_cooldown_active : Duration → Duration → GuardrailReason
  bank_downtime_active : String → String → String → GuardrailReason

abbrev pub spending_actions : List ActionType
spending_actions =
    ActionType.retry ∷ ActionType.nudge_method_update ∷ ActionType.nudge_reminder ∷ []

abbrev pub Blocked : Type 0
Blocked = List (ActionType × GuardrailReason)

pub record GuardrailVerdict : Type 0 where
  pub blocked : Blocked
  pub retry_held_by_downtime : Bool

abbrev pub lookup : ActionType → Blocked → Option GuardrailReason
lookup a [] = none
lookup a ((b, r) ∷ m) = if is_action b a then some r else lookup a m

-- `none` is the empty reason of an action that is not blocked.
unfoldable pub reason : GuardrailVerdict → ActionType → Option GuardrailReason
reason v a = lookup a v.blocked

unfoldable pub allows : GuardrailVerdict → ActionType → Bool
allows v a = elim (lookup a v.blocked) [ none ↦ true | some r ↦ false ]

unfoldable pub recovery_window_closed :
    AttemptHistory → GuardrailConfig → Time → Option GuardrailReason
recovery_window_closed h cfg now =
    let age = since now h.record_created_at in
    if ltb_ℤ age cfg.recovery_window
    then none
    else some (GuardrailReason.recovery_window_closed_for age cfg.recovery_window)

unfoldable pub retry_budget_spent : AttemptHistory → GuardrailConfig → Option GuardrailReason
retry_budget_spent h cfg =
    if ltb_ℤ (pos h.retries) cfg.max_retries
    then none
    else some (GuardrailReason.retry_budget_exhausted h.retries cfg.max_retries)

abbrev cooling : Option Time → GuardrailConfig → Time → Option GuardrailReason
cooling none cfg now = none
cooling (some last) cfg now =
    let gap = since now last in
    if ltb_ℤ gap cfg.contact_cooldown
    then some (GuardrailReason.contact_cooldown_active gap cfg.contact_cooldown)
    else none

unfoldable pub contact_blocked : AttemptHistory → GuardrailConfig → Time → Option GuardrailReason
contact_blocked h cfg now =
    if leb_ℤ cfg.max_contacts (pos h.contacts)
    then some (GuardrailReason.contact_cap_reached h.contacts cfg.max_contacts)
    else cooling h.last_contact_at cfg now

abbrev block_all : GuardrailReason → List ActionType → Blocked
block_all r [] = []
block_all r (a ∷ as') = (a, r) ∷ block_all r as'

abbrev block_retry : Option GuardrailReason → Blocked → Blocked
block_retry none m = m
block_retry (some r) m = (ActionType.retry, r) ∷ m

abbrev block_contacts : Option GuardrailReason → Blocked
block_contacts none = []
block_contacts (some r) =
    block_all r (ActionType.nudge_method_update ∷ ActionType.nudge_reminder ∷ [])

unfoldable pub apply_guardrails : AttemptHistory → GuardrailConfig → Time → GuardrailVerdict
unfolding recovery_window_closed retry_budget_spent contact_blocked
apply_guardrails h cfg now = record {
  blocked = elim (recovery_window_closed h cfg now) [
    | some r ↦ block_all r spending_actions
    | none ↦ block_retry (retry_budget_spent h cfg) (block_contacts (contact_blocked h cfg now))
  ];
  retry_held_by_downtime = false;
}

unfoldable pub permitted_or_escalate :
    ActionType → GuardrailVerdict → ActionType × Option GuardrailReason
unfolding allows reason
permitted_or_escalate want v =
    if allows v want then (want, none) else (ActionType.escalate, reason v want)

pub data ConfigError : Type 0 where
  max_retries_not_positive max_contacts_not_positive : ConfigError
  contact_cooldown_not_positive recovery_window_not_positive : ConfigError

-- `none` is a nil error.
unfoldable pub validate : GuardrailConfig → Option ConfigError
validate c =
    if leb_ℤ c.max_retries (pos 0)
    then some ConfigError.max_retries_not_positive
    else if leb_ℤ c.max_contacts (pos 0)
    then some ConfigError.max_contacts_not_positive
    else if leb_ℤ c.contact_cooldown (pos 0)
    then some ConfigError.contact_cooldown_not_positive
    else if leb_ℤ c.recovery_window (pos 0)
    then some ConfigError.recovery_window_not_positive
    else none

abbrev pub keep_allowed : GuardrailVerdict → List ActionType → List ActionType
unfolding allows
keep_allowed v [] = []
keep_allowed v (a ∷ as') = let rest = keep_allowed v as' in if allows v a then a ∷ rest else rest

unfoldable pub permitted_actions : GuardrailVerdict → List ActionType
unfolding allows
permitted_actions v = keep_allowed v spending_actions

unfoldable pub attempt_number_for : ActionType → AttemptHistory → ℕ
attempt_number_for a h = if is_retry a then h.retries + 1 else h.contacts + 1

pub record DowntimeStatus : Type 0 where
  pub present : Bool
  pub downtime_id : String
  pub method : String
  pub instrument : String
  pub severity : String
  pub scheduled : Bool
  pub begin : Time
  pub end : Option Time

abbrev pub downtime_max_unresolved_hold : Duration
downtime_max_unresolved_hold = pos (6 * nanos_per_hour)

-- The end that bounds a downtime: its own, or the safety valve's.
abbrev pub lasts_until : DowntimeStatus → Option Time → Time
lasts_until d (some e) = e
lasts_until d none = add d.begin downtime_max_unresolved_hold

unfoldable pub downtime_blocks_retry : DowntimeStatus → Time → Option GuardrailReason
downtime_blocks_retry d now =
    if not d.present
    then none
    else if before now d.begin
    then none
    else if not (before now (lasts_until d d.end))
    then none
    else some (GuardrailReason.bank_downtime_active d.method d.instrument d.severity)

unfoldable pub apply_downtime_guardrail :
    GuardrailVerdict → DowntimeStatus → Time → GuardrailVerdict
unfolding downtime_blocks_retry allows
apply_downtime_guardrail v d now =
    if not (allows v ActionType.retry) then v else elim (downtime_blocks_retry d now) [
      | none ↦ v
      | some r ↦ record {
        blocked = (ActionType.retry, r) ∷ v.blocked;
        retry_held_by_downtime = true;
      }
    ]
