-- ===== src/Classifier/Breaker/Guarded.antt =====
-- A rung behind the breaker of services/classifier/internal/provider/breaker.go.
use momotaro.Prelude.{
  ◌<◌, ◌≤◌, ◌≡◌, ◌⊎◌, inl, inr, refl, Bool, true, false, Option, none, some, arith,
}
use momotaro.Platform.Time.{Time}
use momotaro.Classifier.{ProviderError, Rung, Method}
use momotaro.Classifier.Breaker.{
  BreakerConfig, Breaker, admit, record_outcome_of, seen_error, circuit_open_error, guarded,
}

-- The breaker's place in the world: reading gives what was written, and writing back what is read
-- changes nothing.
pub record IsPlace {W : Type 0} (get : W → Breaker) (put : Breaker → W → W) : Type 0 where
  pub get_put : (b : Breaker) (w : W) → get (put b w) ≡ b
  pub put_get : (w : W) → put (get w) w ≡ w

admit_open : (t : Time) (b : Breaker) → t < b.open_until → admit t b ≡ (false, false, b)
unfolding admit
admit_open t b h = ground arith

admit_ready :
    (t : Time) (b : Breaker) → b.open_until ≤ t → b.trial_in_flight ≡ false → (admit t b).1 ≡ true
unfolding admit
admit_ready t b h idle = ground arith

seen_success :
    {R : Type 0} (is_valid : R → Bool) (reply : ProviderError ⊎ Option R) (resp : R)
    → reply ≡ inr (some resp)
    → is_valid resp ≡ true
    → seen_error is_valid reply ≡ none
unfolding seen_error
seen_success is_valid reply resp e v = rw e (rw v refl)

-- A success closes the circuit.
module _ (cfg : BreakerConfig) (t' : Time) (is_trial : Bool) (b : Breaker) where
  closed_open : (record_outcome_of cfg t' none is_trial b).open_until ≡ 0
  unfolding record_outcome_of
  closed_open = refl

  closed_count : (record_outcome_of cfg t' none is_trial b).consecutive ≡ 0
  unfolding record_outcome_of
  closed_count = refl

  closed_admits :
      (t : Time)
      → admit t (record_outcome_of cfg t' none is_trial b)
        ≡ (false, true, record_outcome_of cfg t' none is_trial b)
  unfolding record_outcome_of admit
  closed_admits t = refl

module _ {W Q R : Type 0} (method : Method Q R) (now : W → Time) (get : W → Breaker)
    (put : Breaker → W → W) where
  -- While the circuit is open no call reaches the provider: the answer is the open circuit's error and
  -- nothing has changed, so no time is spent.
  pub guarded_open :
      (cfg : BreakerConfig) (inner : Rung W Q R) (deadline : Option Time) (q : Q) (w : W)
      → IsPlace get put
      → now w < (get w).open_until
      → (guarded method now get put cfg inner).call deadline q w ≡ (inl circuit_open_error, w)
  unfolding guarded
  guarded_open cfg inner deadline q w place h =
      rw (admit_open (now w) (get w) h) (rw (place.put_get w) refl)

  -- Once the cooldown is over and no trial is under way, the next request reaches the provider; if the
  -- provider answers with a valid response, the request gets it and the circuit is closed with no
  -- failure counted, so that a request after it is let through, whenever it comes.
  pub guarded_recovers :
      (cfg : BreakerConfig) (inner : Rung W Q R) (deadline : Option Time) (q : Q) (w : W) (resp : R)
      (t : Time)
      → IsPlace get put
      → (get w).open_until ≤ now w
      → (get w).trial_in_flight ≡ false
      → ((b : Breaker) → (inner.call deadline q (put b w)).0 ≡ inr (some resp))
      → method.is_valid q resp ≡ true
      → let (reply, w') = (guarded method now get put cfg inner).call deadline q w in
        (reply ≡ inr (some resp))
        × ((get w').open_until ≡ 0)
        × ((get w').consecutive ≡ 0)
        × (admit t (get w') ≡ (false, true, get w'))
  unfolding guarded
  guarded_recovers cfg inner deadline q w resp t place h idle answers valid =
      let trial : Bool = (admit (now w) (get w)).0 in
      let b : Breaker = (admit (now w) (get w)).2 in
      let w' : W = (inner.call deadline q (put b w)).1 in
      rw (admit_ready (now w) (get w) h idle) (
        rw (seen_success (method.is_valid q) _ resp (answers b) valid, place.get_put)
          (
            answers b,
            closed_open cfg (now w') trial (get w'),
            closed_count cfg (now w') trial (get w'),
            closed_admits cfg (now w') trial (get w') t,
          ))
