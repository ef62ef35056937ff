-- ===== src/Classifier/Breaker/Circuit.antt =====
-- When the breaker of services/classifier/internal/provider/breaker.go opens and closes.
use momotaro.Prelude.{
  suc, ◌+◌, ◌<◌, ◌≡◌, inl, inr, refl, ◌∙◌, Bool, true, false, Option, none, some, List, [], ◌∷◌,
  arith, if◌then◌else◌, ◌↔◌, Bool-cases, Option-cases, length, All,
}
use momotaro.Prelude.Int.{pos, negsuc, leb_ℤ, ◌<ℤ◌, ◌≤ℤ◌}
use momotaro.Platform.Time.{Time, Duration, add}
use momotaro.Classifier.{ProviderError}
use momotaro.Classifier.Breaker.{
  BreakerConfig, Breaker, open_circuit, record_failure, record_outcome_of,
}

-- A configuration that `NewBreaker` accepts.
pub record IsConfig (cfg : BreakerConfig) : Type 0 where
  pub threshold_positive : pos 0 <ℤ cfg.threshold
  pub cooldown_positive : pos 0 <ℤ cfg.cooldown

-- A closed circuit has seen fewer failures in a row than the threshold.
abbrev pub ClosedBelow : BreakerConfig → Breaker → Type 0
ClosedBelow cfg b = b.open_until ≡ 0 → pos b.consecutive <ℤ cfg.threshold

abbrev landed : Bool → Breaker → Breaker
landed is_trial b = record b { trial_in_flight = if is_trial then false else b.trial_in_flight }

-- A positive duration leads past the zero time.
add-later : (t : Time) (d : Duration) → pos 0 <ℤ d → 0 < add t d
add-later t (pos n) h = omega arith
add-later t (negsuc n) h = absurd (omega arith)

asked_positive :
    (cfg : BreakerConfig) (asked : Duration)
    → IsConfig cfg
    → pos 0 <ℤ (if leb_ℤ asked (pos 0) then cfg.cooldown else asked)
asked_positive cfg asked c = ground arith

failure-ClosedBelow :
    (cfg : BreakerConfig) (t : Time) (e : ProviderError) (b : Breaker)
    → IsConfig cfg
    → ClosedBelow cfg (record_failure cfg t e b)
unfolding record_failure open_circuit
failure-ClosedBelow cfg t e b c = elim (Option-cases e.throttled) [
  | inr (asked, x) ↦
      rw (x, record_failure)
        (λ z. absurd (omega (arith, add-later t _ (asked_positive cfg asked c), z)))
  | inl x ↦
      rw (x, record_failure) (λ z. ground (arith, add-later t cfg.cooldown c.cooldown_positive))
]

-- Whatever has been recorded, a circuit is closed only while fewer calls in a row have failed than the
-- threshold: no outcome leaves it closed at the threshold.
pub record_outcome_of-ClosedBelow :
    (cfg : BreakerConfig) (t : Time) (error : Option ProviderError) (is_trial : Bool) (b : Breaker)
    → IsConfig cfg
    → ClosedBelow cfg b
    → ClosedBelow cfg (record_outcome_of cfg t error is_trial b)
unfolding record_outcome_of
record_outcome_of-ClosedBelow cfg t none is_trial b c h z = c.threshold_positive
record_outcome_of-ClosedBelow cfg t (some e) is_trial b c h z =
    failure-ClosedBelow cfg t e (landed is_trial b) c z

-- Failures that are no throttling, one after another.
abbrev pub after_failures : BreakerConfig → List (Time × ProviderError) → Breaker → Breaker
after_failures cfg [] b = b
after_failures cfg ((t, e) ∷ fails) b =
    after_failures cfg fails (record_outcome_of cfg t (some e) false b)

failure_kept_open :
    (cfg : BreakerConfig) (t : Time) (e : ProviderError) (b : Breaker)
    → IsConfig cfg
    → 0 < b.open_until
    → 0 < (record_outcome_of cfg t (some e) false b).open_until
unfolding record_outcome_of record_failure open_circuit
failure_kept_open cfg t e b c o = elim (Option-cases e.throttled) [
  | inr (asked, x) ↦ rw (x, record_failure) (add-later t _ (asked_positive cfg asked c))
  | inl x ↦ rw (x, record_failure) (ground (arith, add-later t cfg.cooldown c.cooldown_positive))
]

failures_kept_open :
    (cfg : BreakerConfig) (fails : List (Time × ProviderError)) (b : Breaker)
    → IsConfig cfg
    → 0 < b.open_until
    → 0 < (after_failures cfg fails b).open_until
failures_kept_open cfg [] b c o = o
failures_kept_open cfg ((t, e) ∷ fails) b c o =
    failures_kept_open cfg fails (record_outcome_of cfg t (some e) false b) c
      (failure_kept_open cfg t e b c o)

one_failure :
    (cfg : BreakerConfig) (t : Time) (e : ProviderError) (b : Breaker)
    → e.throttled ≡ none
    → ((record_outcome_of cfg t (some e) false b).consecutive ≡ suc b.consecutive)
      × ((record_outcome_of cfg t (some e) false b).open_until ≡ (
          if leb_ℤ cfg.threshold (pos (suc b.consecutive))
          then add t cfg.cooldown
          else b.open_until))
unfolding record_outcome_of record_failure open_circuit
one_failure cfg t e b x =
    (rw (x, record_failure) (ground arith), rw (x, record_failure) (ground arith))

reached :
    (cfg : BreakerConfig) (b : Breaker) (fails : List (Time × ProviderError))
    → leb_ℤ cfg.threshold (pos (suc b.consecutive)) ≡ true
    → ¬ (pos (b.consecutive + suc (length fails)) <ℤ cfg.threshold)
reached cfg b fails k below = ground arith

-- Whether the circuit is open after the failures: if it was, or once enough are counted.
failures_open :
    (cfg : BreakerConfig) (fails : List (Time × ProviderError)) (b : Breaker)
    → IsConfig cfg
    → All (λ f. f.1.throttled ≡ none) fails
    → b.open_until ≡ 0
    → ClosedBelow cfg b
    → (pos (b.consecutive + length fails) <ℤ cfg.threshold
        → (after_failures cfg fails b).open_until ≡ 0)
      × (cfg.threshold ≤ℤ pos (b.consecutive + length fails)
          → 0 < (after_failures cfg fails b).open_until)
failures_open cfg [] b c a z h = (λ _. z, λ k. absurd (omega (arith, h z)))
failures_open cfg ((t, e) ∷ fails) b c (x, xs) z h =
    let (counted, opened) = one_failure cfg t e b x in
    elim (Bool-cases (leb_ℤ cfg.threshold (pos (suc b.consecutive)))) [
      | inl k ↦ (
        λ below. absurd (reached cfg b fails k below),
        λ _.
            failures_kept_open cfg fails b' c
              (rw opened (rw k (add-later t cfg.cooldown c.cooldown_positive))),
      )
      | inr k ↦
          let (stays, opens) =
            failures_open cfg fails b' c xs (opened ∙ (rw k z))
              (record_outcome_of-ClosedBelow cfg t (some e) false b c h) in
          (λ below. stays (omega (arith, counted)), λ above. opens (omega (arith, counted)))
    ]
  where
    b' : Breaker
    b' = record_outcome_of cfg t (some e) false b

-- From a new breaker, failures in a row that are no throttling open the circuit exactly from the
-- threshold on.
pub failures_open_iff :
    (cfg : BreakerConfig) (fails : List (Time × ProviderError))
    → IsConfig cfg
    → All (λ f. f.1.throttled ≡ none) fails
    → let b =
        after_failures cfg fails
          (record { consecutive = 0; open_until = 0; trial_in_flight = false }) in
      (0 < b.open_until) ↔ (cfg.threshold ≤ℤ pos (length fails))
failures_open_iff cfg fails c a =
    let (stays, opens) =
      failures_open cfg fails (record { consecutive = 0; open_until = 0; trial_in_flight = false })
        c a refl (λ _. c.threshold_positive) in
    (
      λ o. elim (Bool-cases (leb_ℤ cfg.threshold (pos (length fails)))) [
        | inl k ↦ ground (arith, k)
        | inr k ↦ absurd (omega (arith, stays (ground (arith, k))))
      ],
      λ above. opens (omega (arith, above)),
    )
