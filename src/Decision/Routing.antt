-- ===== src/Decision/Routing.antt =====
-- services/decision-engine/internal/engine/state.go: which state a record moves to next, with the
-- texts of the audit trail kept as formats and arguments.
pub mod Limits
pub mod Outcomes
use momotaro.Prelude.{
  ℕ, Bool, true, false, Option, none, some, List, [], ◌∷◌, ◌++◌, ◌&&◌, if◌then◌else◌,
}
use momotaro.Prelude.Int.{ℤ}
use momotaro.Platform.Float.{Float}
use momotaro.Platform.Time.{Time}
use momotaro.Proto.{ActionType, RootCauseBucket, RecordState, Outcome, is_retry}
use momotaro.Decision.Economics.{Model, Score, Candidate, zero_score, score_all, best_of}
use momotaro.Decision.Guardrails.{
  GuardrailConfig, GuardrailReason, GuardrailVerdict, AttemptHistory, DowntimeStatus, Blocked,
  apply_guardrails, apply_downtime_guardrail, permitted_actions, attempt_number_for, reason,
  spending_actions,
}

pub data StepReason (F : Type 0) : Type 0 where
  classified_retry_scheduled classified_nudge_scheduled : StepReason F
  classifier_recommended_escalation no_actionable_recommendation : StepReason F
  confidence_below_threshold : StepReason F
  action_succeeded awaiting_delayed_outcome unexpected_pending action_failed : StepReason F
  classified_scoring attempt_failed_rescoring scheduler_claimed : StepReason F
  guardrails_permit_no_action : Option GuardrailReason → StepReason F
  no_positive_value : StepReason F
  guardrail_text : Option GuardrailReason → StepReason F
  best_expected_value : ActionType → F → F → ℤ → ℤ → StepReason F

pub record DecisionTrace (F : Type 0) : Type 0 where
  pub candidates : List (Score F)
  pub blocked : Blocked

abbrev pub empty_trace : {F : Type 0} → DecisionTrace F
empty_trace = record { candidates = []; blocked = [] }

pub record StateStep (F : Type 0) : Type 0 where
  pub from : RecordState
  pub to : RecordState
  pub why : StepReason F

-- The results of `scoreAndRoute`.
pub record Routing (F : Type 0) : Type 0 where
  pub state : RecordState
  pub pending_action : ActionType
  pub why : StepReason F
  pub score : Score F
  pub trace : DecisionTrace F

unfoldable pub decide_for_action :
    {F : Type 0} → ActionType → RecordState × ActionType × StepReason F
decide_for_action ActionType.retry =
    (RecordState.retry_scheduled, ActionType.retry, StepReason.classified_retry_scheduled)
decide_for_action ActionType.nudge_method_update = (
  RecordState.nudge_scheduled, ActionType.nudge_method_update,
  StepReason.classified_nudge_scheduled,
)
decide_for_action ActionType.nudge_reminder =
    (RecordState.nudge_scheduled, ActionType.nudge_reminder, StepReason.classified_nudge_scheduled)
decide_for_action ActionType.escalate =
    (RecordState.escalated, ActionType.unspecified, StepReason.classifier_recommended_escalation)
decide_for_action _ =
    (RecordState.escalated, ActionType.unspecified, StepReason.no_actionable_recommendation)

abbrev pub is_nudge : ActionType → Bool
is_nudge ActionType.nudge_method_update = true
is_nudge ActionType.nudge_reminder = true
is_nudge _ = false

unfoldable pub decide_after_execute :
    {F : Type 0} → ActionType → Outcome → RecordState × StepReason F
decide_after_execute p Outcome.success = (RecordState.recovered, StepReason.action_succeeded)
decide_after_execute p Outcome.pending =
    if is_nudge p
    then (RecordState.nudged, StepReason.awaiting_delayed_outcome)
    else (RecordState.escalated, StepReason.unexpected_pending)
decide_after_execute p _ = (RecordState.escalated, StepReason.action_failed)

unfoldable pub claimed_state : RecordState → RecordState
claimed_state RecordState.retry_scheduled = RecordState.retrying
claimed_state _ = RecordState.nudged

module _ {F : Type 0} where
  abbrev step : RecordState → RecordState → StepReason F → StateStep F
  step f t w = record { from = f; to = t; why = w }

  unfoldable pub scoring_path : RecordState → StepReason F → List (StateStep F)
  scoring_path to why =
      step RecordState.new RecordState.scoring StepReason.classified_scoring
      ∷ step RecordState.scoring to why
      ∷ []

  unfoldable pub rescoring_path : RecordState → RecordState → StepReason F → List (StateStep F)
  rescoring_path from to why =
      step from RecordState.scoring StepReason.attempt_failed_rescoring
      ∷ step RecordState.scoring to why
      ∷ []

  unfoldable pub direct_path : RecordState → StepReason F → List (StateStep F)
  direct_path to why = step RecordState.new to why ∷ []

abbrev first_reason : GuardrailVerdict → List ActionType → Option GuardrailReason
first_reason v [] = none
first_reason v (a ∷ as') =
    let rest = first_reason v as' in elim (reason v a) [ some r ↦ some r | none ↦ rest ]

-- `none` is "no reason recorded".
unfoldable pub guardrail_refusal_reason : GuardrailVerdict → Option GuardrailReason
guardrail_refusal_reason v = first_reason v spending_actions

-- The permitted actions, and a retry that only a downtime holds back.
unfoldable pub score_actions : GuardrailVerdict → List ActionType
score_actions v =
    if v.retry_held_by_downtime
    then permitted_actions v ++ (ActionType.retry ∷ [])
    else permitted_actions v

abbrev pub candidates_for : AttemptHistory → List ActionType → List Candidate
candidates_for h [] = []
candidates_for h (a ∷ as') =
    record { action = a; attempt_no = attempt_number_for a h } ∷ candidates_for h as'

abbrev pub is_empty : {A : Type 0} → List A → Bool
is_empty [] = true
is_empty (_ ∷ _) = false

abbrev pub full_verdict :
    GuardrailConfig → AttemptHistory → DowntimeStatus → Time → GuardrailVerdict
full_verdict cfg h d now = apply_downtime_guardrail (apply_guardrails h cfg now) d now

module _ {F : Type 0} ⦃fl : Float F⦄ where
  -- The branch with nothing to score.
  unfoldable pub refused : GuardrailVerdict → Routing F
  refused v = record {
    state = RecordState.escalated;
    pending_action = ActionType.unspecified;
    why = StepReason.guardrails_permit_no_action (guardrail_refusal_reason v);
    score = zero_score;
    trace = record { candidates = []; blocked = v.blocked };
  }

  abbrev winning_reason : GuardrailVerdict → Score F → ℤ → StepReason F
  winning_reason v b amount =
      if is_retry b.action && v.retry_held_by_downtime
      then StepReason.guardrail_text (reason v ActionType.retry)
      else StepReason.best_expected_value b.action b.ev_paise b.p_recovery b.cost_paise amount

  -- The branches behind the scores, by what `best_of` found.
  unfoldable pub routed : GuardrailVerdict → List (Score F) → ℤ → Option (Score F) → Routing F
  unfolding decide_for_action
  routed v scores amount none = record {
    state = RecordState.closed_uneconomic;
    pending_action = ActionType.unspecified;
    why = StepReason.no_positive_value;
    score = zero_score;
    trace = record { candidates = scores; blocked = v.blocked };
  }
  routed v scores amount (some b) = record {
    state = (decide_for_action {F = F} b.action).0;
    pending_action = (decide_for_action {F = F} b.action).1;
    why = winning_reason v b amount;
    score = b;
    trace = record { candidates = scores; blocked = v.blocked };
  }

  unfoldable pub priced :
      Model → RootCauseBucket → AttemptHistory → ℤ → GuardrailVerdict → Routing F
  priced m bucket h amount v =
      let scores = score_all m (candidates_for h (score_actions v)) bucket amount in
      routed v scores amount (best_of scores)

  unfoldable pub score_and_route :
      Model
      → GuardrailConfig
      → RootCauseBucket
      → AttemptHistory
      → DowntimeStatus
      → ℤ
      → Time
      → Routing F
  score_and_route m cfg bucket h d amount now =
      let v = full_verdict cfg h d now in
      if is_empty (score_actions v) then refused v else priced m bucket h amount v
