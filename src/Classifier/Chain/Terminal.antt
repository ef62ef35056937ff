-- ===== src/Classifier/Chain/Terminal.antt =====
-- What `NewChain` of services/classifier/internal/provider/chain.go guarantees of the rungs it accepts.
use mathlib.Core.Path.{subst}
use momotaro.Prelude.{
  ◌≡◌, sym, ap, true, false, Option, none, some, List, [], ◌∷◌, inl, inr, arith, ◌∙◌, Bool-cases,
  Option-cases, Sum-cases, All,
}
use momotaro.Prelude.Text.{Bytes, same→eq}
use momotaro.Platform.HopCodec.{has_delimiter}
use momotaro.Classifier.{Rung, ChainConfig, rules_name, is_rules}
use momotaro.Classifier.Chain.{
  Chain, resolve_rungs, last_name, validate_chain_order, validate_config, new_chain,
  only_rules_rung,
}

is_rules→eq : (name : Bytes) → is_rules name ≡ true → name ≡ rules_name
unfolding is_rules
is_rules→eq name h = same→eq name rules_name h

last_rules :
    (name : Bytes) (names : List Bytes)
    → validate_chain_order (name ∷ names) ≡ none
    → is_rules (last_name name names) ≡ true
unfolding validate_chain_order
last_rules name names o = ground arith

module _ {W Q R : Type 0} where
  -- The last rung is `p`.
  abbrev pub EndsIn : Rung W Q R → List (Rung W Q R) → Type 0
  EndsIn p [] = ⊥
  EndsIn p (r ∷ []) = r ≡ p
  EndsIn p (r ∷ s ∷ rungs) = EndsIn p (s ∷ rungs)

  -- A rung stands in the registry under a name that the stored hops can hold.
  pub record Registered (registry : Bytes → Option (Rung W Q R)) (r : Rung W Q R) : Type 0 where
    pub key : Bytes
    pub clean : has_delimiter key ≡ false
    pub entry : registry key ≡ some r

  EndsIn-cons :
      (p r : Rung W Q R) (rungs : List (Rung W Q R)) → EndsIn p rungs → EndsIn p (r ∷ rungs)
  EndsIn-cons p r [] h = absurd h
  EndsIn-cons p r (s ∷ rungs) h = h

  -- A step of `resolveRungs` that succeeds.
  pub resolve_inv :
      (name : Bytes) (names : List Bytes) (registry : Bytes → Option (Rung W Q R))
      {rungs : List (Rung W Q R)}
      → resolve_rungs (name ∷ names) registry ≡ inr rungs
      → (r : Rung W Q R) × (rest : List (Rung W Q R)) × (has_delimiter name ≡ false)
        × (registry name ≡ some r)
        × (resolve_rungs names registry ≡ inr rest)
        × (rungs ≡ r ∷ rest)
  unfolding resolve_rungs
  resolve_inv name names registry {rungs} e = elim (Bool-cases (has_delimiter name)) [
    | inl d ↦ cc (rw (d, resolve_rungs) at e)
    | inr d ↦ elim (Option-cases (registry name)) [
      | inl n ↦ cc (rw (d, n, resolve_rungs) at e)
      | inr (r, n) ↦ elim (Sum-cases (resolve_rungs names registry)) [
        | inl (err, q) ↦ cc (rw (d, n, q, resolve_rungs) at e)
        | inr (rest, q) ↦ (r, rest, d, n, q, cc (rw (d, n, q, resolve_rungs) at e))
      ]
    ]
  ]

  pub resolve_nil :
      (registry : Bytes → Option (Rung W Q R)) {rungs : List (Rung W Q R)}
      → resolve_rungs [] registry ≡ inr rungs
      → rungs ≡ []
  unfolding resolve_rungs
  resolve_nil registry e = cc

  resolve_rungs-EndsIn :
      (name : Bytes) (names : List Bytes) (registry : Bytes → Option (Rung W Q R)) (p : Rung W Q R)
      {rungs : List (Rung W Q R)}
      → registry rules_name ≡ some p
      → is_rules (last_name name names) ≡ true
      → resolve_rungs (name ∷ names) registry ≡ inr rungs
      → EndsIn p rungs
  unfolding last_name
  resolve_rungs-EndsIn name [] registry p reg l e =
      let (r, rest, _, n, q, s) = resolve_inv name [] registry e in
      subst (EndsIn p) (sym (s ∙ ap (λ t. r ∷ t) (resolve_nil registry q)))
        (cc (n, reg, is_rules→eq name l))
  resolve_rungs-EndsIn name (next ∷ names) registry p reg l e =
      let (r, rest, _, _, q, s) = resolve_inv name (next ∷ names) registry e in
      subst (EndsIn p) (sym s)
        (EndsIn-cons p r rest (resolve_rungs-EndsIn next names registry p reg l q))

  resolve_rungs-Registered :
      (names : List Bytes) (registry : Bytes → Option (Rung W Q R)) {rungs : List (Rung W Q R)}
      → resolve_rungs names registry ≡ inr rungs
      → All (Registered registry) rungs
  resolve_rungs-Registered [] registry e =
      subst (All (Registered registry)) (sym (resolve_nil registry e)) tt
  resolve_rungs-Registered (name ∷ names) registry e =
      let (r, rest, d, n, q, s) = resolve_inv name names registry e in
      subst (All (Registered registry)) (sym s)
        (record { key = name; clean = d; entry = n }, resolve_rungs-Registered names registry q)

  pub record IsResolved (registry : Bytes → Option (Rung W Q R)) (p : Rung W Q R)
      (chain : Chain W Q R) : Type 0 where
    pub ends : EndsIn p chain.rungs
    pub registered : All (Registered registry) chain.rungs

  built :
      (names : List Bytes) (registry : Bytes → Option (Rung W Q R)) (p : Rung W Q R)
      (cfg : ChainConfig) (rungs : List (Rung W Q R))
      → registry rules_name ≡ some p
      → validate_chain_order names ≡ none
      → resolve_rungs names registry ≡ inr rungs
      → IsResolved registry p (record { rungs = rungs; cfg = cfg })
  unfolding validate_chain_order
  built [] registry p cfg rungs reg o q = cc
  built (name ∷ names) registry p cfg rungs reg o q =
      let ends = resolve_rungs-EndsIn name names registry p reg (last_rules name names o) q in
      let registered = resolve_rungs-Registered (name ∷ names) registry q in
      record { ends = ends; registered = registered }

  -- A chain that is built ends in the rules' rung, and its rungs are the registry's.
  pub new_chain-IsResolved :
      (names : List Bytes) (registry : Bytes → Option (Rung W Q R)) (cfg : ChainConfig)
      (p : Rung W Q R) (chain : Chain W Q R)
      → registry rules_name ≡ some p
      → new_chain names registry cfg ≡ inr chain
      → IsResolved registry p chain
  unfolding new_chain
  new_chain-IsResolved names registry cfg p chain reg e =
      elim (Option-cases (validate_config cfg)) [
        | inr (err, c) ↦ cc (rw (c, new_chain) at e)
        | inl c ↦ elim (Option-cases (validate_chain_order names)) [
          | inr (err, o) ↦ cc (rw (c, o, new_chain) at e)
          | inl o ↦ elim (Sum-cases (resolve_rungs names registry)) [
            | inl (err, q) ↦ cc (rw (c, o, q, new_chain) at e)
            | inr (rungs, q) ↦
                subst (IsResolved registry p) (cc (rw (c, o, q, new_chain) at e))
                  (built names registry p cfg rungs reg o q)
          ]
        ]
      ]

  pub only_rules_rung-EndsIn :
      (p : Rung W Q R) (rungs : List (Rung W Q R))
      → is_rules p.name ≡ true
      → EndsIn p rungs
      → EndsIn p (only_rules_rung rungs)
  unfolding only_rules_rung
  only_rules_rung-EndsIn p [] h e = absurd e
  only_rules_rung-EndsIn p (r ∷ []) h e = rw (ap (λ (x : Rung W Q R). is_rules x.name) e ∙ h) e
  only_rules_rung-EndsIn p (r ∷ s ∷ rungs) h e =
      let rest = only_rules_rung-EndsIn p (s ∷ rungs) h e in
      elim (Bool-cases (is_rules r.name)) [
        | inl t ↦ rw t (EndsIn-cons p r (only_rules_rung (s ∷ rungs)) rest)
        | inr t ↦ rw t rest
      ]

  pub only_rules_rung-All :
      (P : Rung W Q R → Type 0) (rungs : List (Rung W Q R))
      → All P rungs
      → All P (only_rules_rung rungs)
  unfolding only_rules_rung
  only_rules_rung-All P [] a = tt
  only_rules_rung-All P (r ∷ rungs) (a, as') =
      let rest = only_rules_rung-All P rungs as' in
      elim (Bool-cases (is_rules r.name)) [ inl t ↦ rw t (a, rest) | inr t ↦ rw t rest ]
