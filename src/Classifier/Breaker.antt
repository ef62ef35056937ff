-- ===== src/Classifier/Breaker.antt =====
-- services/classifier/internal/provider/breaker.go: the circuit breaker around one rung.
pub mod Circuit
pub mod Trials
pub mod Guarded
use momotaro.Prelude.{
  ℕ, suc, ◌==◌, ◌&&◌, Bool, true, false, Option, none, some, List, [], ◌∷◌, ◌⊎◌, inl, inr, leb, ltb,
  if◌then◌else◌,
}
use momotaro.Prelude.Int.{ℤ, pos, leb_ℤ}
use momotaro.Prelude.Text.{Bytes}
use momotaro.Platform.Time.{Time, Duration, add, before}
use momotaro.Classifier.{ProviderError, Rung, Method, is_rules}

pub record BreakerConfig : Type 0 where
  pub threshold : ℤ
  pub cooldown : Duration

-- The fields behind the mutex. `open_until` is 0 while the circuit is closed.
pub record Breaker : Type 0 where
  pub consecutive : ℕ
  pub open_until : Time
  pub trial_in_flight : Bool

pub data BreakerError : Type 0 where
  no_inner wraps_rules threshold_not_positive cooldown_not_positive : BreakerError

-- `NewBreaker`: the state that a new breaker starts with.
unfoldable pub new_breaker :
    {W Q R : Type 0} → Option (Rung W Q R) → BreakerConfig → BreakerError ⊎ Breaker
new_breaker none cfg = inl no_inner
new_breaker (some inner) cfg =
    if is_rules inner.name
    then inl wraps_rules
    else if leb_ℤ cfg.threshold (pos 0)
    then inl threshold_not_positive
    else if leb_ℤ cfg.cooldown (pos 0)
    then inl cooldown_not_positive
    else inr (record { consecutive = 0; open_until = 0; trial_in_flight = false })

-- `admit` at time `t`: whether the request is the trial, whether it is let through.
unfoldable pub admit : Time → Breaker → Bool × Bool × Breaker
admit t b =
    if b.open_until == 0
    then (false, true, b)
    else if before t b.open_until
    then (false, false, b)
    else if b.trial_in_flight
    then (false, false, b)
    else (true, true, record b { trial_in_flight = true })

-- `openCircuit`.
unfoldable pub open_circuit : Time → Duration → Breaker → Breaker
open_circuit t cooldown b = record b { open_until = add t cooldown }

-- The error that stands for a response that is not valid.
abbrev schema_error : ProviderError
schema_error = record { is_circuit_open = false; throttled = none; is_deadline_exceeded = false }

-- The error that `record` sees: the rung's, or that of a response that fails validation.
unfoldable pub seen_error :
    {R : Type 0} → (R → Bool) → ProviderError ⊎ Option R → Option ProviderError
seen_error is_valid (inl e) = some e
seen_error is_valid (inr none) = some schema_error
seen_error is_valid (inr (some resp)) = if is_valid resp then none else some schema_error

-- A failure, the trial's flag already taken back.
unfoldable pub record_failure : BreakerConfig → Time → ProviderError → Breaker → Breaker
unfolding open_circuit
record_failure cfg t e b =
    let failed : Breaker = record b { consecutive = suc b.consecutive } in
    elim e.throttled [
      | some asked ↦ open_circuit t (if leb_ℤ asked (pos 0) then cfg.cooldown else asked) failed
      | none ↦
          if leb_ℤ cfg.threshold (pos failed.consecutive)
          then open_circuit t cfg.cooldown failed
          else failed
    ]

-- `record` at time `t`.
unfoldable pub record_outcome_of :
    BreakerConfig → Time → Option ProviderError → Bool → Breaker → Breaker
unfolding record_failure
record_outcome_of cfg t error is_trial b =
    let landed : Breaker = record b {
      trial_in_flight = if is_trial then false else b.trial_in_flight;
    } in
    elim error [
      | none ↦ record landed { consecutive = 0; open_until = 0 }
      | some e ↦ record_failure cfg t e landed
    ]

-- `ErrCircuitOpen`.
abbrev pub circuit_open_error : ProviderError
circuit_open_error = record {
  is_circuit_open = true;
  throttled = none;
  is_deadline_exceeded = false;
}

module _ {W Q R : Type 0} where
  -- A rung behind its breaker, which is a part of the world: other requests see it and change it
  -- while the inner call is made.
  unfoldable pub guarded :
      Method Q R
      → (W → Time)
      → (W → Breaker)
      → (Breaker → W → W)
      → BreakerConfig
      → Rung W Q R
      → Rung W Q R
  unfolding admit record_outcome_of seen_error
  guarded method now get put cfg inner = record {
    name = inner.name;
    call = λ deadline q w.
        let (is_trial, admitted, b) = admit (now w) (get w) in
        if admitted
        then (let (reply, w') = inner.call deadline q (put b w) in
            (
              reply,
              put
                  (record_outcome_of cfg (now w') (seen_error (method.is_valid q) reply) is_trial
                    (get w'))
                  w',
            ))
        else (inl circuit_open_error, put b w);
  }
