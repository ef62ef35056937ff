-- ===== src/Classifier/Rules/Sure.antt =====
-- What the rules rung of services/classifier/internal/rules never does: fail, or have a payment
-- retried whose outcome is unknown.
use mathlib.Core.Path.{subst}
use momotaro.Prelude.{
  ℕ, ◌≤◌, ◌≡◌, refl, ◌&&◌, ◌⊎◌, inl, inr, Bool, true, false, not, ◌||◌, Option, none, some, arith,
  Bool-cases, Option-cases, String, List, [], ◌∷◌,
}
use momotaro.Prelude.Text.{Bytes, codes, same, same→eq}
use momotaro.Prelude.Int.{pos}
use momotaro.Platform.Float.{Float, HasUnitQuotients}
use momotaro.Proto.{RecordType, RootCauseBucket, ActionType}
use momotaro.Classifier.{ClassifyRequest, Rationale, validate_response, is_named_bucket}
use momotaro.Classifier.Taxonomy.{
  normalize_failure_code, bucket_for_code, bucket_for_error_taxonomy, fallback_bucket,
  is_indeterminate, find_code, is_systemic, or_false, failure_code_to_bucket, indeterminate_codes,
}
use momotaro.Classifier.Rules.{percent, action_for, answer, rules_classify}

-- Every row of a table gives a named bucket.
all_named : List (String × RootCauseBucket) → Bool
all_named [] = true
all_named ((key, b) ∷ rows) = is_named_bucket b && all_named rows

find_code-named :
    (code : Bytes) (rows : List (String × RootCauseBucket)) {b : RootCauseBucket}
    → all_named rows ≡ true
    → find_code code rows ≡ some b
    → is_named_bucket b ≡ true
unfolding all_named find_code
find_code-named code [] n e = cc
find_code-named code ((key, a) ∷ rows) n e = elim (Bool-cases (same (codes key) code)) [
  | inl q ↦ ground (arith, q)
  | inr q ↦ find_code-named code rows (ground arith) (rw (q, find_code) at e)
]

bucket_for_code-named :
    (code : Bytes) {b : RootCauseBucket} → bucket_for_code code ≡ some b → is_named_bucket b ≡ true
unfolding bucket_for_code all_named
bucket_for_code-named code e = find_code-named code failure_code_to_bucket refl e

taxonomy-named :
    (source step : Bytes) {b : RootCauseBucket}
    → bucket_for_error_taxonomy source step ≡ some b
    → is_named_bucket b ≡ true
unfolding bucket_for_error_taxonomy
taxonomy-named source step e = ground arith

fallback-named : (t : RecordType) → is_named_bucket (fallback_bucket t) ≡ true
unfolding fallback_bucket
fallback-named RecordType.checkout = refl
fallback-named t = ground arith

-- Every code of the list leads the table to a risk hold.
is_risk_hold : Option RootCauseBucket → Bool
is_risk_hold (some RootCauseBucket.risk_hold) = true
is_risk_hold _ = false

is_risk_hold→eq :
    (o : Option RootCauseBucket) → is_risk_hold o ≡ true → o ≡ some RootCauseBucket.risk_hold
unfolding is_risk_hold
is_risk_hold→eq o h = ground arith

all_held : List (String × Bool) → Bool
all_held [] = true
all_held ((key, v) ∷ rows) = is_risk_hold (bucket_for_code (codes key)) && all_held rows

find_code-held :
    (code : Bytes) (rows : List (String × Bool))
    → all_held rows ≡ true
    → or_false (find_code code rows) ≡ true
    → is_risk_hold (bucket_for_code code) ≡ true
unfolding all_held find_code
find_code-held code [] n e = cc
find_code-held code ((key, a) ∷ rows) n e = elim (Bool-cases (same (codes key) code)) [
  | inl q ↦
      subst (λ c. is_risk_hold (bucket_for_code c) ≡ true) (same→eq (codes key) code q)
        (ground arith)
  | inr q ↦ find_code-held code rows (ground arith) (rw (q, find_code, or_false) at e)
]

indeterminate_held :
    (code : Bytes)
    → is_indeterminate code ≡ true
    → bucket_for_code code ≡ some RootCauseBucket.risk_hold
unfolding is_indeterminate all_held is_risk_hold bucket_for_code find_code same
indeterminate_held code h = is_risk_hold→eq _ (find_code-held code indeterminate_codes refl h)

-- Only the error taxonomy's systemic rows give a bank's transient failure or missing funds.
abbrev IsRetried : RootCauseBucket → Type 0
IsRetried b = (b ≡ RootCauseBucket.transient_bank) ⊎ (b ≡ RootCauseBucket.insufficient_funds)

systemic :
    (source step : Bytes) (b : RootCauseBucket)
    → bucket_for_error_taxonomy source step ≡ some b
    → IsRetried b
    → is_systemic (normalize_failure_code source) ≡ true
unfolding bucket_for_error_taxonomy
systemic source step b t r = ground arith

module _ (F : Type 0) ⦃fl : Float F⦄ where
  IsRetried-bucket :
      (b : RootCauseBucket) → (action_for {F = F} b).action ≡ ActionType.retry → IsRetried b
  unfolding action_for
  IsRetried-bucket RootCauseBucket.transient_bank e = inl refl
  IsRetried-bucket RootCauseBucket.insufficient_funds e = inr refl
  IsRetried-bucket b e = cc

  fallback_not_retried :
      (t : RecordType) → ¬ ((action_for {F = F} (fallback_bucket t)).action ≡ ActionType.retry)
  unfolding action_for fallback_bucket
  fallback_not_retried RecordType.checkout e = cc
  fallback_not_retried t e = cc

  -- A code that leaves the payment's outcome open is answered by an escalation of a risk hold,
  -- however it is written and whatever else the record says.
  pub indeterminate_escalated :
      (q : ClassifyRequest)
      → is_indeterminate (normalize_failure_code q.payment.failure_code) ≡ true
      → ((rules_classify {F = F} q).recommended_action ≡ ActionType.escalate)
        × ((rules_classify {F = F} q).bucket ≡ RootCauseBucket.risk_hold)
  unfolding rules_classify action_for
  indeterminate_escalated q h =
      let e = indeterminate_held _ h in (rw (e, rules_classify) refl, rw (e, rules_classify) refl)

  -- Where the table does not know the code, a retry is recommended only for an error that came from
  -- the bank's side.
  pub unlisted_retry :
      (q : ClassifyRequest)
      → bucket_for_code (normalize_failure_code q.payment.failure_code) ≡ none
      → (rules_classify {F = F} q).recommended_action ≡ ActionType.retry
      → is_systemic (normalize_failure_code q.payment.error_source) ≡ true
  unfolding rules_classify
  unlisted_retry q h e =
      elim (Option-cases (bucket_for_error_taxonomy q.payment.error_source q.payment.error_step)) [
        | inl n ↦ absurd (fallback_not_retried q.payment.type (rw (h, n, rules_classify) at e))
        | inr (b, t) ↦
            systemic q.payment.error_source q.payment.error_step b t
              (IsRetried-bucket b (rw (h, t, rules_classify) at e))
      ]

  module _ (laws : HasUnitQuotients F) where
    percent_valid :
        (n : ℕ)
        → n ≤ 100
        → not (
            fl.lt (percent {F = F} n) (fl.of_int (pos 0))
            || fl.lt (fl.of_int (pos 1)) (percent {F = F} n))
          ≡ true
    percent_valid n h =
        rw (laws.not_below_zero n 100 (omega arith), laws.not_above_one n 100 h (omega arith)) refl

    answer_valid :
        (b : RootCauseBucket) (r : Rationale)
        → is_named_bucket b ≡ true
        → validate_response (answer b (action_for {F = F} b) r) ≡ true
    unfolding validate_response action_for
    answer_valid (RootCauseBucket.unrecognized n) r h = cc
    answer_valid RootCauseBucket.unspecified r h = percent_valid 0 (omega arith)
    answer_valid RootCauseBucket.transient_bank r h = percent_valid 90 (omega arith)
    answer_valid RootCauseBucket.insufficient_funds r h = percent_valid 80 (omega arith)
    answer_valid RootCauseBucket.hard_decline r h = percent_valid 85 (omega arith)
    answer_valid RootCauseBucket.user_action_needed r h = percent_valid 70 (omega arith)
    answer_valid RootCauseBucket.risk_hold r h = percent_valid 100 (omega arith)
    answer_valid RootCauseBucket.abandonment r h = percent_valid 80 (omega arith)
    answer_valid RootCauseBucket.overdue r h = percent_valid 75 (omega arith)

    -- The rules' answer is always accepted.
    pub rules-valid : (q : ClassifyRequest) → validate_response (rules_classify {F = F} q) ≡ true
    unfolding rules_classify
    rules-valid q =
        elim (Option-cases (bucket_for_code (normalize_failure_code q.payment.failure_code))) [
          | inr (b, e) ↦ rw (e, rules_classify) (answer_valid b _ (bucket_for_code-named _ e))
          | inl e ↦
              elim (Option-cases
                (bucket_for_error_taxonomy q.payment.error_source q.payment.error_step)) [
                  | inr (b, t) ↦ rw (e, t, rules_classify) (answer_valid b _ (taxonomy-named _ _ t))
                  | inl t ↦
                      rw (e, t, rules_classify) (answer_valid _ _ (fallback-named q.payment.type))
                ]
        ]
