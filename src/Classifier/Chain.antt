-- ===== src/Classifier/Chain.antt =====
-- services/classifier/internal/provider/chain.go and nudge.go: the ordered rungs of a classification
-- and of a nudge. The two walks differ in the check of a response, in the fields that are filled in and
-- in the flag that leaves only the terminal rung: their `Method`.
pub mod Terminal
pub mod Answers
pub mod Trace
pub mod Forced
pub mod Deadlines
use momotaro.Prelude.{
  ℕ, suc, ◌==◌, ltb, Bool, true, false, Option, none, some, List, [], ◌∷◌, ◌++◌, ◌⊎◌, inl, inr,
  if◌then◌else◌,
}
use momotaro.Prelude.Int.{ℤ, pos, ltb_ℤ, leb_ℤ}
use momotaro.Prelude.Text.{Bytes}
use momotaro.Platform.Float.{Float}
use momotaro.Platform.HopCodec.{ProviderHop, has_delimiter}
use momotaro.Platform.Time.{Time, Duration}
use momotaro.Proto.{Source}
use momotaro.Classifier.{
  ClassifyRequest, ClassifyResponse, HopResult, ok, error, timeout, schema_invalid,
  deadline_exhausted, circuit_open, rate_limited, is_rules, new_hop, ProviderError, Rung, Method,
  ChainConfig, rung_ctx, classify_method,
}

-- Why a chain cannot be built.
pub data ChainError : Type 0 where
  rung_timeout_not_positive reserve_negative no_provider no_rules : ChainError
  rules_repeated : ℕ → ChainError
  rules_not_last : Bytes → ChainError
  delimiter_in_name : Bytes → ChainError
  unknown_provider : Bytes → ChainError

-- `validateConfig`, `none` if there is nothing to refuse.
unfoldable pub validate_config : ChainConfig → Option ChainError
validate_config cfg =
    if leb_ℤ cfg.rung_timeout (pos 0)
    then some rung_timeout_not_positive
    else if ltb_ℤ cfg.reserve (pos 0)
    then some reserve_negative
    else none

unfoldable pub rules_count : List Bytes → ℕ
rules_count [] = 0
rules_count (name ∷ names) =
    let rest = rules_count names in if is_rules name then suc rest else rest

-- `names[len(names)-1]`.
unfoldable pub last_name : Bytes → List Bytes → Bytes
last_name name [] = name
last_name name (next ∷ names) = last_name next names

-- `validateChainOrder`.
unfoldable pub validate_chain_order : List Bytes → Option ChainError
unfolding rules_count last_name
validate_chain_order [] = some no_provider
validate_chain_order (name ∷ names) =
    let count = rules_count (name ∷ names) in
    if count == 0
    then some no_rules
    else if ltb 1 count
    then some (rules_repeated count)
    else if is_rules (last_name name names)
    then none
    else some (rules_not_last (last_name name names))

module _ {W Q R : Type 0} where
  abbrev pub resolved : Rung W Q R → ChainError ⊎ List (Rung W Q R) → ChainError ⊎ List (Rung W Q R)
  resolved p (inl e) = inl e
  resolved p (inr rungs) = inr (p ∷ rungs)

  -- `resolveRungs`.
  unfoldable pub resolve_rungs :
      List Bytes → (Bytes → Option (Rung W Q R)) → ChainError ⊎ List (Rung W Q R)
  unfolding has_delimiter
  resolve_rungs [] registry = inr []
  resolve_rungs (name ∷ names) registry =
      let rest = resolve_rungs names registry in
      if has_delimiter name
      then inl (delimiter_in_name name)
      else elim (registry name) [ none ↦ inl (unknown_provider name) | some p ↦ resolved p rest ]

-- Chain and NudgeChain.
pub record Chain (W Q R : Type 0) : Type 0 where
  pub rungs : List (Rung W Q R)
  pub cfg : ChainConfig

-- `hopResultForError`.
unfoldable pub hop_result_for_error : ProviderError → HopResult
hop_result_for_error e = if e.is_circuit_open then circuit_open else elim e.throttled [
  | some cooldown ↦ rate_limited
  | none ↦ if e.is_deadline_exceeded then timeout else error
]

-- `sourceFor`.
unfoldable pub source_for : Bytes → Source
source_for name = if is_rules name then Source.rules_fallback else Source.llm

abbrev pub is_nil {ℓ} : {A : Type ℓ} → List A → Bool
is_nil [] = true
is_nil (x ∷ xs) = false

module _ {W Q R : Type 0} where
  -- `NewChain` and `NewNudgeChain`.
  unfoldable pub new_chain :
      List Bytes → (Bytes → Option (Rung W Q R)) → ChainConfig → ChainError ⊎ Chain W Q R
  unfolding resolve_rungs validate_chain_order validate_config
  new_chain names registry cfg = elim (validate_config cfg) [
    | some e ↦ inl e
    | none ↦ elim (validate_chain_order names) [
      | some e ↦ inl e
      | none ↦ elim (resolve_rungs names registry) [
        | inl e ↦ inl e
        | inr rungs ↦ inr (record { rungs = rungs; cfg = cfg })
      ]
    ]
  ]

  -- `onlyRulesRung` and `onlyTemplateRung`.
  unfoldable pub only_rules_rung : List (Rung W Q R) → List (Rung W Q R)
  only_rules_rung [] = []
  only_rules_rung (r ∷ rungs) =
      let rest = only_rules_rung rungs in if is_rules r.name then r ∷ rest else rest

  -- What becomes of a call: the response that the chain returns, or the hop that it leaves behind.
  unfoldable pub judge : Method Q R → Rung W Q R → Q → ProviderError ⊎ Option R → ProviderHop ⊎ R
  unfolding hop_result_for_error
  judge method r q (inl e) = inl (new_hop r.name (hop_result_for_error e))
  judge method r q (inr none) = inl (new_hop r.name schema_invalid)
  judge method r q (inr (some resp)) =
      if method.is_valid q resp then inr resp else inl (new_hop r.name schema_invalid)

  -- The loop over the rungs at a clock `now`, with the hops so far. The last of the rungs is the
  -- terminal one. `none` is the error that no rung produced a valid response.
  unfoldable pub walk :
      Method Q R
      → (W → Time)
      → ChainConfig
      → Option Time
      → Q
      → List (Rung W Q R)
      → List ProviderHop
      → W
      → Option R × W
  unfolding rung_ctx judge source_for
  walk method now cfg deadline q [] hops w = (none, w)
  walk method now cfg deadline q (r ∷ rungs) hops w =
      elim (rung_ctx deadline cfg.rung_timeout cfg.reserve (is_nil rungs) (now w)) [
        | none ↦
            walk method now cfg deadline q rungs (hops ++ (new_hop r.name deadline_exhausted ∷ []))
              w
        | some rung_deadline ↦
            let (reply, w') = r.call rung_deadline q w in
            elim (judge method r q reply) [
              | inl hop ↦ walk method now cfg deadline q rungs (hops ++ (hop ∷ [])) w'
              | inr resp ↦ (
                some (method.stamp (hops ++ (new_hop r.name ok ∷ [])) (source_for r.name) resp),
                w',
              )
            ]
      ]

  -- The method of a chain under the caller's deadline.
  unfoldable pub call_chain :
      Method Q R → (W → Time) → Chain W Q R → Option Time → Q → W → Option R × W
  unfolding walk only_rules_rung
  call_chain method now chain deadline q w =
      walk method now chain.cfg deadline q
        (if method.forced q then only_rules_rung chain.rungs else chain.rungs) [] w

-- `Classify` of a chain.
unfoldable pub chain_classify :
    {F : Type 0} ⦃fl : Float F⦄ {W : Type 0}
    → (W → Time)
    → Chain W ClassifyRequest (ClassifyResponse F)
    → Option Time
    → ClassifyRequest
    → W
    → Option (ClassifyResponse F) × W
unfolding call_chain
chain_classify = call_chain classify_method
