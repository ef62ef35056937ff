-- ===== src/Classifier/Chain/Forced.antt =====
-- The switch of services/classifier/internal/provider/chain.go that keeps a request away from the paid
-- providers.
use mathlib.Core.Path.{subst}
use momotaro.Prelude.{
  ℕ, suc, ◌≡◌, refl, sym, ap, Bool, true, Option, none, some, List, [], ◌∷◌, ◌⊎◌, inl, inr, arith,
  ◌∙◌, Bool-cases, Option-cases, Sum-cases, length, if◌then◌else◌,
}
use momotaro.Prelude.Text.{Bytes, same}
use momotaro.Platform.Float.{Float, HasUnitQuotients}
use momotaro.Platform.Time.{Time}
use momotaro.Proto.{Source}
use momotaro.Classifier.{
  ClassifyRequest, ClassifyResponse, ok, rules_name, is_rules, new_hop, Rung, ChainConfig, rung_ctx,
  classify_method,
}
use momotaro.Classifier.Chain.{
  ChainError, Chain, new_chain, validate_config, validate_chain_order, rules_count, resolve_rungs,
  only_rules_rung, source_for, call_chain, walk, chain_classify,
}
use momotaro.Classifier.Chain.Terminal.{
  EndsIn, new_chain-IsResolved, only_rules_rung-EndsIn, resolve_inv, resolve_nil,
}
use momotaro.Classifier.Chain.Trace.{IsRegistry, rules_named}
use momotaro.Classifier.Chain.Answers.{judge_accepted}
use momotaro.Classifier.Rules.{rules_rung, rules_classify}
use momotaro.Classifier.Rules.Sure.{rules-valid}

one_rule : (names : List Bytes) → validate_chain_order names ≡ none → rules_count names ≡ 1
unfolding validate_chain_order
one_rule [] o = cc
one_rule (name ∷ names) o = ground arith

module _ {W Q R : Type 0} where
  -- As many rungs are left as the configured names have "rules".
  length-only_rules_rung :
      (names : List Bytes) (registry : Bytes → Option (Rung W Q R)) {rungs : List (Rung W Q R)}
      → IsRegistry registry
      → resolve_rungs names registry ≡ inr rungs
      → length (only_rules_rung rungs) ≡ rules_count names
  unfolding rules_count only_rules_rung
  length-only_rules_rung [] registry reg e =
      subst (λ rungs. length (only_rules_rung rungs) ≡ 0) (sym (resolve_nil registry e)) refl
  length-only_rules_rung (name ∷ names) registry reg e =
      let (r, rest, _, n, q, s) = resolve_inv name names registry e in
      subst (λ rungs. length (only_rules_rung rungs) ≡ rules_count (name ∷ names)) (sym s)
        (counted r rest (reg.named name r n) (length-only_rules_rung names registry reg q))
    where
      counted :
          (r : Rung W Q R) (rest : List (Rung W Q R))
          → r.name ≡ name
          → length (only_rules_rung rest) ≡ rules_count names
          → length (only_rules_rung (r ∷ rest)) ≡ rules_count (name ∷ names)
      counted r rest n ih = elim (Bool-cases (is_rules name)) [
        | inl t ↦ rw n (rw t (ap (λ (k : ℕ). suc k) ih))
        | inr t ↦ rw n (rw t ih)
      ]

  singleton :
      (p : Rung W Q R) (rungs : List (Rung W Q R))
      → EndsIn p rungs
      → length rungs ≡ 1
      → rungs ≡ p ∷ []
  singleton p [] e l = absurd e
  singleton p (r ∷ []) e l = ap (λ x. x ∷ []) e
  singleton p (r ∷ s ∷ rungs) e l = absurd (omega arith)

  new_chain_inv :
      (names : List Bytes) (registry : Bytes → Option (Rung W Q R)) (cfg : ChainConfig)
      (chain : Chain W Q R)
      → new_chain names registry cfg ≡ inr chain
      → (validate_chain_order names ≡ none) × (resolve_rungs names registry ≡ inr chain.rungs)
  unfolding new_chain
  new_chain_inv names registry cfg chain e = elim (Option-cases (validate_config cfg)) [
    | inr (err, c) ↦ cc (rw (c, new_chain) at e)
    | inl c ↦ elim (Option-cases (validate_chain_order names)) [
      | inr (err, o) ↦ cc (rw (c, o, new_chain) at e)
      | inl o ↦ elim (Sum-cases (resolve_rungs names registry)) [
        | inl (err, q) ↦ cc (rw (c, o, q, new_chain) at e)
        | inr (rungs, q) ↦ (o, q ∙ kept (rw (c, o, q, new_chain) at e))
      ]
    ]
  ]
    where
      kept :
          {rungs : List (Rung W Q R)}
          → ◌≡◌ {A = ChainError ⊎ Chain W Q R}
              (inr (record { rungs = rungs; cfg = cfg }))
              (inr chain)
          → ◌≡◌ {A = ChainError ⊎ List (Rung W Q R)} (inr rungs) (inr chain.rungs)
      kept k = cc

module _ {W : Type 0} (F : Type 0) ⦃fl : Float F⦄ (laws : HasUnitQuotients F) where
  rules_answer :
      (cfg : ChainConfig) (now : W → Time) (deadline : Option Time) (q : ClassifyRequest) (w : W)
      → walk (classify_method {F = F}) now cfg deadline q (rules_rung ∷ []) [] w ≡ (
        some (record (rules_classify q) {
          source = Source.rules_fallback;
          hops = new_hop rules_name ok ∷ [];
        }),
        w,
      )
  unfolding walk rules_rung rung_ctx source_for is_rules same
  rules_answer cfg now deadline q w =
      rw
        (
          judge_accepted classify_method (λ name. Unit {0}) rules_rung q
              (inr (some (rules_classify q))) (rules_classify q) refl (rules-valid F laws q),
          walk,
        )
        refl

  -- A request that is forced to the rules is answered by them with no other rung called and nothing
  -- changed, however the chain is configured: the response is the rules' own, with one hop.
  pub forced-rules_only :
      (names : List Bytes) (registry : Bytes → Option (Rung W ClassifyRequest (ClassifyResponse F)))
      (cfg : ChainConfig) (chain : Chain W ClassifyRequest (ClassifyResponse F)) (now : W → Time)
      (deadline : Option Time) (q : ClassifyRequest) (w : W)
      → IsRegistry registry
      → registry rules_name ≡ some rules_rung
      → new_chain names registry cfg ≡ inr chain
      → q.force_rules_only ≡ true
      → chain_classify now chain deadline q w ≡ (
        some (record (rules_classify q) {
          source = Source.rules_fallback;
          hops = new_hop rules_name ok ∷ [];
        }),
        w,
      )
  unfolding chain_classify call_chain rules_rung
  forced-rules_only names registry cfg chain now deadline q w reg rules built f =
      let (o, res) = new_chain_inv names registry cfg chain built in
      let r = new_chain-IsResolved names registry cfg rules_rung chain rules built in
      let only : only_rules_rung chain.rungs ≡ rules_rung ∷ [] =
        singleton rules_rung (only_rules_rung chain.rungs)
          (only_rules_rung-EndsIn rules_rung chain.rungs rules_named r.ends)
          (length-only_rules_rung names registry reg res ∙ one_rule names o) in
      ap
        (λ (forced : Bool).
          walk classify_method now chain.cfg deadline q
            (if forced then only_rules_rung chain.rungs else chain.rungs) [] w)
        f
      ∙ rw only (rules_answer chain.cfg now deadline q w)
