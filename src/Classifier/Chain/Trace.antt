-- ===== src/Classifier/Chain/Trace.antt =====
-- What a chain of services/classifier/internal/provider/chain.go that was built answers, and what its
-- hops say.
use mathlib.Core.Path.{subst}
use momotaro.Prelude.{
  ◌≡◌, ◌≢◌, refl, sym, true, false, Option, none, some, List, [], ◌∷◌, ◌++◌, inl, inr, Bool-cases,
  All, All-append, All-map,
}
use momotaro.Prelude.Text.{Bytes, contains, same_refl}
use momotaro.Platform.Float.{Float, HasUnitQuotients}
use momotaro.Platform.HopCodec.{ProviderHop, has_delimiter, is_empty, encode, decode}
use momotaro.Platform.HopCodec.RoundTrip.{IsStorable, encode_iff, decode-encode}
use momotaro.Platform.Time.{Time}
use momotaro.Classifier.{
  ClassifyRequest, ClassifyResponse, HopResult, ok, hop_text, rules_name, is_rules, new_hop, Rung,
  Method, ChainConfig, validate_response, classify_method,
}
use momotaro.Classifier.Chain.{
  Chain, new_chain, only_rules_rung, source_for, call_chain, chain_classify,
}
use momotaro.Classifier.Chain.Terminal.{
  EndsIn, Registered, new_chain-IsResolved, only_rules_rung-EndsIn, only_rules_rung-All,
}
use momotaro.Classifier.Chain.Answers.{Failed, IsSure, Answered, walk-Answered}
use momotaro.Classifier.Rules.{rules_rung, rules_classify}
use momotaro.Classifier.Rules.Sure.{rules-valid}

-- A registry holds each rung under its own name, which is not empty.
pub record IsRegistry {W Q R : Type 0} (registry : Bytes → Option (Rung W Q R)) : Type 0 where
  pub named : (key : Bytes) (r : Rung W Q R) → registry key ≡ some r → r.name ≡ key
  pub unnamed : registry [] ≡ none

-- A name that a stored hop can hold.
abbrev pub CleanName : Bytes → Type 0
CleanName name = (has_delimiter name ≡ false) × (is_empty name ≡ false)

module _ {W Q R : Type 0} where
  key_set :
      (registry : Bytes → Option (Rung W Q R))
      → IsRegistry registry
      → (key : Bytes) (r : Rung W Q R) → registry key ≡ some r
      → is_empty key ≡ false
  key_set registry reg [] r e = cc (reg.unnamed)
  key_set registry reg (c ∷ key) r e = refl

  pub Registered-clean :
      (registry : Bytes → Option (Rung W Q R))
      → IsRegistry registry
      → (r : Rung W Q R) → Registered registry r
      → CleanName r.name
  Registered-clean registry reg r e =
      let n : r.name ≡ e.key = reg.named e.key r e.entry in
      (rw n e.clean, rw n (key_set registry reg e.key r e.entry))

  pub call_chain-Answered :
      (method : Method Q R) (P : Bytes → Type 0) (now : W → Time) (chain : Chain W Q R)
      (p : Rung W Q R) (deadline : Option Time) (q : Q) (w : W)
      → IsSure method q p
      → is_rules p.name ≡ true
      → EndsIn p chain.rungs
      → All (λ (r : Rung W Q R). P r.name) chain.rungs
      → Answered method P q (call_chain method now chain deadline q w).0
  unfolding call_chain
  call_chain-Answered method P now chain p deadline q w sure n e a =
      elim (Bool-cases (method.forced q)) [
        | inl f ↦ rw f (
            walk-Answered method P now chain.cfg deadline q p sure (only_rules_rung chain.rungs) []
              w (only_rules_rung-EndsIn p chain.rungs n e) (only_rules_rung-All _ chain.rungs a) tt)
        | inr f ↦
            rw f (walk-Answered method P now chain.cfg deadline q p sure chain.rungs [] w e a tt)
      ]

pub rules_named : is_rules rules_name ≡ true
unfolding is_rules
rules_named = same_refl rules_name

text_set : (r : HopResult) → is_empty (hop_text r) ≡ false
text_set ok = refl
text_set r = refl

text-ne-ok : (r : HopResult) → r ≢ ok → hop_text r ≢ hop_text ok
text-ne-ok ok n e = n refl
text-ne-ok r n e = cc

text_clean : (r : HopResult) → has_delimiter (hop_text r) ≡ false
unfolding has_delimiter contains
text_clean ok = refl
text_clean r = refl

Storable-ok : (name : Bytes) (r : HopResult) → CleanName name → IsStorable (new_hop name r)
unfolding has_delimiter
Storable-ok name r (c, n) = record {
  provider_set = n;
  result_set = text_set r;
  provider_clean = c;
  result_clean = text_clean r;
}

Failed-Storable : (h : ProviderHop) → Failed CleanName h → IsStorable h
Failed-Storable h (name, r, c, _, e) = subst IsStorable (sym e) (Storable-ok name r c)

-- The hops of an answer can be stored.
answer-Storable :
    (name : Bytes) (failed : List ProviderHop)
    → CleanName name
    → All (Failed CleanName) failed
    → All IsStorable (failed ++ (new_hop name ok ∷ []))
answer-Storable name failed c f =
    All-append IsStorable failed (new_hop name ok ∷ []) (All-map Failed-Storable failed f)
      (Storable-ok name ok c, tt)

-- A response of the chain: it is accepted, its hops are failures followed by the hop of the rung that
-- answered, which gives the source, and the hops can be stored and are read back unchanged.
pub record Replied {F : Type 0} ⦃fl : Float F⦄ (out : Option (ClassifyResponse F)) : Type 0 where
  pub resp : ClassifyResponse F
  pub answer : out ≡ some resp
  pub valid : validate_response resp ≡ true
  pub name : Bytes
  pub failed : List ProviderHop
  pub trace : resp.hops ≡ failed ++ (new_hop name ok ∷ [])
  pub source : resp.source ≡ source_for name
  pub failures : All (λ h. h.result ≢ hop_text ok) failed
  pub stored : Bytes
  pub encoded : encode resp.hops ≡ inr stored
  pub decoded : decode stored ≡ inr resp.hops

not_ok : (h : ProviderHop) → Failed CleanName h → h.result ≢ hop_text ok
not_ok h (name, r, c, n, e) =
    subst (λ (x : ProviderHop). x.result ≢ hop_text ok) (sym e) (text-ne-ok r n)

module _ (F : Type 0) ⦃fl : Float F⦄ where
  Answered-Replied :
      (q : ClassifyRequest) (out : Option (ClassifyResponse F))
      → Answered classify_method CleanName q out
      → Replied out
  unfolding validate_response
  Answered-Replied q out a =
      let hops : List ProviderHop = a.failed ++ (new_hop a.name ok ∷ []) in
      let (s, e) = (encode_iff hops).1 (answer-Storable a.name a.failed a.named a.failures) in
      record {
        resp = record a.resp { source = source_for a.name; hops = hops };
        answer = a.answer;
        valid = a.valid;
        name = a.name;
        failed = a.failed;
        trace = refl;
        source = refl;
        failures = All-map not_ok a.failed a.failures;
        stored = s;
        encoded = e;
        decoded = decode-encode hops e;
      }

module _ {W : Type 0} (F : Type 0) ⦃fl : Float F⦄ (laws : HasUnitQuotients F) where
  pub rules-IsSure :
      (q : ClassifyRequest) → IsSure (classify_method {F = F}) q (rules_rung {F = F} {W = W})
  unfolding rules_rung
  rules-IsSure q deadline w = (rules_classify q, refl, rules-valid F laws q)

  -- A chain that was built, over a registry that holds each rung under its own name and the rules
  -- engine under "rules", answers every request: whatever the other rungs and the clock do, and however
  -- little is left of the caller's deadline, there is a response that is accepted; its hops are failures
  -- followed by the hop of the rung that answered, which gives the source; and the hops can be stored
  -- and are read back unchanged.
  pub classify-Replied :
      (names : List Bytes) (registry : Bytes → Option (Rung W ClassifyRequest (ClassifyResponse F)))
      (cfg : ChainConfig) (chain : Chain W ClassifyRequest (ClassifyResponse F)) (now : W → Time)
      (deadline : Option Time) (q : ClassifyRequest) (w : W)
      → IsRegistry registry
      → registry rules_name ≡ some rules_rung
      → new_chain names registry cfg ≡ inr chain
      → Replied (chain_classify now chain deadline q w).0
  unfolding chain_classify rules_rung
  classify-Replied names registry cfg chain now deadline q w reg rules built =
      let r = new_chain-IsResolved names registry cfg rules_rung chain rules built in
      Answered-Replied F q (call_chain classify_method now chain deadline q w).0 (
        call_chain-Answered classify_method CleanName now chain rules_rung deadline q w
          (rules-IsSure q) rules_named r.ends
          (All-map (Registered-clean registry reg) chain.rungs r.registered))
