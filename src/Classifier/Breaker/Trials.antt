-- ===== src/Classifier/Breaker/Trials.antt =====
-- Requests that share the breaker of services/classifier/internal/provider/breaker.go: each is admitted
-- or refused when it arrives, and its outcome is recorded when it lands, in any order.
use momotaro.Prelude.{
  ℕ, ◌+◌, ◌≤◌, ◌≡◌, refl, ap, Bool, false, Option, none, some, List, [], ◌∷◌, ◌++◌, arith,
  if◌then◌else◌,
}
use momotaro.Platform.Time.{Time}
use momotaro.Classifier.{ProviderError}
use momotaro.Classifier.Breaker.{
  BreakerConfig, Breaker, admit, open_circuit, record_failure, record_outcome_of,
}
use momotaro.Classifier.Breaker.Circuit.{IsConfig, ClosedBelow, record_outcome_of-ClosedBelow}

-- The breaker with the calls under way, each marked if it is a trial.
pub record Traffic : Type 0 where
  pub breaker : Breaker
  pub calls : List Bool

-- A request arrives at time `t`.
abbrev pub arrived : Time → Traffic → Traffic
arrived t s =
    let (is_trial, admitted, b) = admit t s.breaker in
    record { breaker = b; calls = if admitted then is_trial ∷ s.calls else s.calls }

pub data TrafficStep (cfg : BreakerConfig) : Traffic → Traffic → Type 0 where
  arrive : {s : Traffic} (t : Time) → TrafficStep cfg s (arrived t s)
  land :
      {s : Traffic} (t : Time) (error : Option ProviderError) (is_trial : Bool)
      (earlier later : List Bool)
      → s.calls ≡ earlier ++ (is_trial ∷ later)
      → TrafficStep cfg s (record {
        breaker = record_outcome_of cfg t error is_trial s.breaker;
        calls = earlier ++ later;
      })

pub data TrafficReach (cfg : BreakerConfig) (s : Traffic) : Traffic → Type 0 where
  start : TrafficReach cfg s s
  next : {u v : Traffic} → TrafficReach cfg s u → TrafficStep cfg u v → TrafficReach cfg s v

abbrev pub trials : List Bool → ℕ
trials [] = 0
trials (is_trial ∷ calls) = (if is_trial then 1 else 0) + trials calls

trials-append : (xs ys : List Bool) → trials (xs ++ ys) ≡ trials xs + trials ys
trials-append [] ys = omega arith
trials-append (x ∷ xs) ys = omega (arith, trials-append xs ys)

-- The flag counts the trials under way, and a closed circuit is below the threshold.
pub record IsSound (cfg : BreakerConfig) (s : Traffic) : Type 0 where
  pub counted : trials s.calls ≡ (if s.breaker.trial_in_flight then 1 else 0)
  pub below : ClosedBelow cfg s.breaker

flag_after :
    (cfg : BreakerConfig) (t : Time) (error : Option ProviderError) (is_trial : Bool) (b : Breaker)
    → (record_outcome_of cfg t error is_trial b).trial_in_flight
      ≡ (if is_trial then false else b.trial_in_flight)
unfolding record_outcome_of record_failure open_circuit
flag_after cfg t none is_trial b = refl
flag_after cfg t (some e) is_trial b = ground arith

arrive-IsSound :
    (cfg : BreakerConfig) (t : Time) (s : Traffic) → IsSound cfg s → IsSound cfg (arrived t s)
unfolding admit
arrive-IsSound cfg t s v = record { counted = ground (arith, v.counted); below = below }
  where
    below : ClosedBelow cfg (arrived t s).breaker
    below = ground (arith, v.below)

land_counted :
    (cfg : BreakerConfig) (t : Time) (error : Option ProviderError) (is_trial : Bool) (s : Traffic)
    (earlier later : List Bool)
    → s.calls ≡ earlier ++ (is_trial ∷ later)
    → trials s.calls ≡ (if s.breaker.trial_in_flight then 1 else 0)
    → trials (earlier ++ later)
      ≡ (if (record_outcome_of cfg t error is_trial s.breaker).trial_in_flight then 1 else 0)
land_counted cfg t error is_trial s earlier later e c =
    rw (flag_after cfg t error is_trial s.breaker) (
      ground (
        arith,
        ap trials e,
        trials-append earlier (is_trial ∷ later),
        trials-append earlier later,
        c,
      ))

step-IsSound :
    {cfg : BreakerConfig} {s u : Traffic}
    → IsConfig cfg
    → TrafficStep cfg s u
    → IsSound cfg s
    → IsSound cfg u
step-IsSound {cfg} {s} c (arrive t) v = arrive-IsSound cfg t s v
step-IsSound {cfg} {s} c (land t error is_trial earlier later e) v = record {
  counted = land_counted cfg t error is_trial s earlier later e v.counted;
  below = record_outcome_of-ClosedBelow cfg t error is_trial s.breaker c v.below;
}

reach-IsSound :
    {cfg : BreakerConfig} {s u : Traffic}
    → IsConfig cfg
    → TrafficReach cfg s u
    → IsSound cfg s
    → IsSound cfg u
reach-IsSound c start v = v
reach-IsSound c (next r st) v = step-IsSound c st (reach-IsSound c r v)

-- However requests arrive and land after a breaker is built, at most one trial is under way, and the
-- circuit is closed only while fewer failures in a row are counted than the threshold.
pub one_trial :
    (cfg : BreakerConfig) (s : Traffic)
    → IsConfig cfg
    → TrafficReach cfg
        (record {
          breaker = record { consecutive = 0; open_until = 0; trial_in_flight = false };
          calls = [];
        })
        s
    → (trials s.calls ≤ 1) × ClosedBelow cfg s.breaker
one_trial cfg s c r =
    let v = reach-IsSound c r (record { counted = refl; below = λ _. c.threshold_positive }) in
    (ground (arith, v.counted), v.below)
