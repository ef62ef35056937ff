-- ===== src/Scenarios/Classifications.antt =====
-- The Classifier over a clock: a model that takes three seconds and answers with what the enumerations
-- leave unnamed, before the rules.
use native.Mathlib.Nat.{div-le_of_le-mul}
use momotaro.Prelude.{
  ℕ, ◌+◌, ◌*◌, ◌/◌, ◌≤◌, ◌<◌, ◌≡◌, ◌∙◌, sym, ap, ◌⊎◌, inl, inr, refl, true, false, Option, none,
  some, List, [], ◌∷◌, arith, ltb, if◌then◌else◌, Bool-cases,
}
use momotaro.Prelude.Int.{pos}
use momotaro.Prelude.Text.{Bytes, codes, same, same→eq, contains}
use momotaro.Platform.Float.{HasUnitQuotients}
use momotaro.Platform.HopCodec.{has_delimiter}
use momotaro.Platform.Time.{Time}
use momotaro.Proto.{RecordType, RootCauseBucket, ActionType, Source}
use momotaro.Classifier.{
  PaymentRecord, ClassifyRequest, ClassifyResponse, Rationale, ok, rules_name, is_rules, new_hop,
  Rung, ChainConfig, rung_ctx,
}
use momotaro.Classifier.Chain.{
  Chain, new_chain, validate_config, validate_chain_order, rules_count, last_name, resolve_rungs,
  chain_classify,
}
use momotaro.Classifier.Chain.Deadlines.{rung_ctx_reserves}
use momotaro.Classifier.Chain.Trace.{IsRegistry, Replied, classify-Replied}
use momotaro.Classifier.Rules.{rules_rung, rules_classify}
use momotaro.Classifier.Rules.Sure.{indeterminate_escalated}
use momotaro.Classifier.Server.{serve_classify}
use momotaro.Classifier.Server.Total.{forced-served}
use momotaro.Classifier.Taxonomy.{find_code, is_indeterminate, normalize_failure_code}
use momotaro.Scenarios.{Fixed, fixed}

ltb_of_le : (x y : ℕ) → x ≤ y → ltb y x ≡ false
ltb_of_le x y h = ground arith

unit_quotients : HasUnitQuotients Fixed
unfolding fixed
unit_quotients = record {
  not_below_zero = λ a b p. ltb_of_le 0 (a * 10000 * 10000 / (b * 10000)) (omega arith);
  not_above_one = λ a b h p.
      ltb_of_le (a * 10000 * 10000 / (b * 10000)) 10000
        (div-le_of_le-mul (b * 10000) {m = a * 10000 * 10000} {n = 10000} (omega (arith, h)));
}

abbrev pub groq_name : Bytes
groq_name = codes "groq"

-- Three seconds later the provider answers with a bucket that has no name.
abbrev groq : Rung Time ClassifyRequest (ClassifyResponse Fixed)
groq = record {
  name = groq_name;
  call = λ deadline q t. (
    inr (
        some (record {
          bucket = RootCauseBucket.unspecified;
          recommended_action = ActionType.retry;
          rationale = Rationale.written (codes "unsure");
          confidence = 9000;
          source = Source.unspecified;
          hops = [];
        })),
    t + 3000000000,
  );
}

abbrev pub two_rungs :
    {Q R : Type 0} → Rung Time Q R → Rung Time Q R → Bytes → Option (Rung Time Q R)
two_rungs model rules key =
    if same key groq_name then some model else if same key rules_name then some rules else none

two_rungs_named :
    (Q R : Type 0) (model rules : Rung Time Q R)
    → model.name ≡ groq_name
    → rules.name ≡ rules_name
    → (key : Bytes) (r : Rung Time Q R) → two_rungs model rules key ≡ some r
    → r.name ≡ key
two_rungs_named Q R model rules m n key r e = elim (Bool-cases (same key groq_name)) [
  | inl a ↦
      let f : some model ≡ some r = rw a at e in
      let g : model ≡ r = cc f in
      ap (λ (x : Rung Time Q R). x.name) (sym g) ∙ m ∙ sym (same→eq key groq_name a)
  | inr a ↦ elim (Bool-cases (same key rules_name)) [
    | inl b ↦
        let f : some rules ≡ some r = rw (a, b) at e in
        let g : rules ≡ r = cc f in
        ap (λ (x : Rung Time Q R). x.name) (sym g) ∙ n ∙ sym (same→eq key rules_name b)
    | inr b ↦ cc (rw (a, b) at e)
  ]
]

pub two_rungs-IsRegistry :
    {Q R : Type 0} (model rules : Rung Time Q R)
    → model.name ≡ groq_name
    → rules.name ≡ rules_name
    → IsRegistry (two_rungs model rules)
unfolding same
two_rungs-IsRegistry model rules m n = record {
  named = two_rungs_named _ _ model rules m n;
  unnamed = refl;
}

abbrev pub names : List Bytes
names = groq_name ∷ rules_name ∷ []

abbrev pub chain_config : ChainConfig
chain_config = record { rung_timeout = pos 4000000000; reserve = pos 500000000 }

abbrev pub chain_of : {Q R : Type 0} → Rung Time Q R → Rung Time Q R → Chain Time Q R
chain_of model rules = record { rungs = model ∷ rules ∷ []; cfg = chain_config }

pub chain_built :
    {Q R : Type 0} (model rules : Rung Time Q R)
    → new_chain names (two_rungs model rules) chain_config ≡ inr (chain_of model rules)
unfolding new_chain validate_config validate_chain_order rules_count last_name resolve_rungs
    is_rules same has_delimiter contains
chain_built model rules = refl

abbrev pub timed_out : PaymentRecord
timed_out = record {
  id = codes "7";
  type = RecordType.invoice;
  amount_paise = pos 500000;
  failure_code = codes " gateway timeout";
  error_source = [];
  error_step = [];
}

pub rules_known :
    {Q R : Type 0} (model rules : Rung Time Q R) → two_rungs model rules rules_name ≡ some rules
unfolding same
rules_known model rules = refl

-- The model's answer is not valid, so the rules answer, within a deadline of ten seconds.
classify-Replied_example :
    Replied
      (chain_classify
        (λ t. t)
        (chain_of groq rules_rung)
        (some 10000000000)
        (record { payment = timed_out; force_rules_only = false })
        0).0
unfolding rules_rung
classify-Replied_example =
    classify-Replied Fixed unit_quotients names (two_rungs groq rules_rung) chain_config
      (chain_of groq rules_rung) (λ t. t) (some 10000000000)
      (record { payment = timed_out; force_rules_only = false }) 0
      (two_rungs-IsRegistry groq rules_rung refl refl) (rules_known groq rules_rung)
      (chain_built groq rules_rung)

forced-served_example :
    serve_classify
      (λ t. t)
      (chain_of groq rules_rung)
      (some 10000000000)
      (some timed_out)
      true
      (record { fallback = 0; nudge_fallback = 0 }, 0)
    ≡ (
      inr
          (record (rules_classify {F = Fixed}
            (record { payment = timed_out; force_rules_only = true })) {
              source = Source.rules_fallback;
              hops = new_hop rules_name ok ∷ [];
            }),
      record { fallback = 0; nudge_fallback = 0 },
      0,
    )
unfolding rules_rung
forced-served_example =
    forced-served Fixed unit_quotients names (two_rungs groq rules_rung) chain_config
      (chain_of groq rules_rung) (λ t. t) (some 10000000000) timed_out
      (record { fallback = 0; nudge_fallback = 0 }) 0
      (two_rungs-IsRegistry groq rules_rung refl refl) (rules_known groq rules_rung)
      (chain_built groq rules_rung) refl

indeterminate_escalated_example :
    let resp =
      rules_classify {F = Fixed} (record { payment = timed_out; force_rules_only = false }) in
    (resp.recommended_action ≡ ActionType.escalate) × (resp.bucket ≡ RootCauseBucket.risk_hold)
indeterminate_escalated_example =
    indeterminate_escalated Fixed (record { payment = timed_out; force_rules_only = false })
      (unfold is_indeterminate normalize_failure_code find_code same in refl)

-- Two seconds are left at second eight; the rung has four of its own and half a second is kept.
rung_ctx_reserves_example :
    (rung_ctx (some 10000000000) (pos 4000000000) (pos 500000000) false 8000000000 ≡ none)
      × (10000000000 ≤ 8000000000 + 500000000)
    ⊎ ((d : Time) × (rung_ctx (some 10000000000) (pos 4000000000) (pos 500000000) false 8000000000
          ≡ some (some d))
        × (8000000000 < d)
        × (d + 500000000 ≤ 10000000000)
        × (d ≤ 8000000000 + 4000000000))
rung_ctx_reserves_example =
    rung_ctx_reserves 10000000000 4000000000 500000000 8000000000 (omega arith) (omega arith)
      (omega arith)
