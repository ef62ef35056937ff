-- ===== src/Classifier/Rules.antt =====
-- services/classifier/internal/rules: actions.go, rationale.go and rules.go, the rung that answers
-- from tables and cannot fail.
pub mod Sure
use momotaro.Prelude.{
  ℕ, Bool, true, false, Option, none, some, List, [], ◌∷◌, ◌⊎◌, inl, inr, if◌then◌else◌,
}
use momotaro.Prelude.Int.{ℤ, pos}
use momotaro.Prelude.Text.{Bytes}
use momotaro.Platform.Float.{Float}
use momotaro.Platform.HopCodec.{is_empty}
use momotaro.Platform.Time.{Time}
use momotaro.Proto.{RootCauseBucket, ActionType, Source}
use momotaro.Classifier.{
  ClassifyRequest, ClassifyResponse, Rationale, indeterminate, no_code, unlisted_code, listed_code,
  taxonomy, ProviderError, Rung, rules_name,
}
use momotaro.Classifier.Taxonomy.{
  normalize_failure_code, bucket_for_code, bucket_for_error_taxonomy, fallback_bucket,
  is_indeterminate,
}

pub record ActionRule (F : Type 0) : Type 0 where
  pub action : ActionType
  pub confidence : F

module _ {F : Type 0} ⦃fl : Float F⦄ where
  -- A constant of two decimals: the quotient of two integers is rounded like the literal.
  abbrev pub percent : ℕ → F
  percent n = fl.div (fl.of_int (pos n)) (fl.of_int (pos 100))

  -- `actionFor`: a bucket that the table does not have gives the zero rule.
  unfoldable pub action_for : RootCauseBucket → ActionRule F
  action_for RootCauseBucket.transient_bank = record {
    action = ActionType.retry;
    confidence = percent 90;
  }
  action_for RootCauseBucket.insufficient_funds = record {
    action = ActionType.retry;
    confidence = percent 80;
  }
  action_for RootCauseBucket.hard_decline = record {
    action = ActionType.nudge_method_update;
    confidence = percent 85;
  }
  action_for RootCauseBucket.user_action_needed = record {
    action = ActionType.nudge_method_update;
    confidence = percent 70;
  }
  action_for RootCauseBucket.risk_hold = record {
    action = ActionType.escalate;
    confidence = percent 100;
  }
  action_for RootCauseBucket.abandonment = record {
    action = ActionType.nudge_reminder;
    confidence = percent 80;
  }
  action_for RootCauseBucket.overdue = record {
    action = ActionType.nudge_reminder;
    confidence = percent 75;
  }
  action_for RootCauseBucket.unspecified = record {
    action = ActionType.escalate;
    confidence = percent 0;
  }
  action_for (RootCauseBucket.unrecognized n) = record {
    action = ActionType.unspecified;
    confidence = percent 0;
  }

-- `composeRationale`.
unfoldable pub compose_rationale : RootCauseBucket → ActionType → Bytes → Bool → Bool → Rationale
compose_rationale bucket action raw_code recognized true = indeterminate raw_code action
compose_rationale bucket action raw_code true false = listed_code raw_code bucket action
compose_rationale bucket action raw_code false false =
    if is_empty raw_code then no_code bucket action else unlisted_code raw_code bucket action

abbrev pub answer : {F : Type 0} → RootCauseBucket → ActionRule F → Rationale → ClassifyResponse F
answer bucket rule rationale = record {
  bucket = bucket;
  recommended_action = rule.action;
  rationale = rationale;
  confidence = rule.confidence;
  source = Source.unspecified;
  hops = [];
}

module _ {F : Type 0} ⦃fl : Float F⦄ where
  abbrev pub by_code : Bytes → RootCauseBucket → Bool → Bool → ClassifyResponse F
  by_code raw_code bucket recognized doubtful =
      answer bucket (action_for bucket)
        (compose_rationale bucket (action_for {F = F} bucket).action raw_code recognized doubtful)

  -- `Classify` of the rules.
  unfoldable pub rules_classify : ClassifyRequest → ClassifyResponse F
  rules_classify q =
      let raw_code = q.payment.failure_code in
      let normalized = normalize_failure_code raw_code in
      elim (bucket_for_code normalized) [
        | some bucket ↦ by_code raw_code bucket true (is_indeterminate normalized)
        | none ↦ elim (bucket_for_error_taxonomy q.payment.error_source q.payment.error_step) [
          | some bucket ↦ answer bucket (action_for bucket) (
              taxonomy raw_code q.payment.error_source q.payment.error_step bucket
                (action_for {F = F} bucket).action)
          | none ↦
              by_code raw_code (fallback_bucket q.payment.type) false (is_indeterminate normalized)
        ]
      ]

  -- The rung: it changes nothing, whatever the deadline.
  unfoldable pub rules_rung : {W : Type 0} → Rung W ClassifyRequest (ClassifyResponse F)
  rules_rung = record {
    name = rules_name;
    call = λ deadline q w. (inr (some (rules_classify q)), w);
  }
