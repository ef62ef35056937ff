-- ===== src/Scenarios/Breakers.antt =====
-- A circuit breaker of three failures and a minute, around a provider that answers.
use momotaro.Prelude.{◌≤◌, ◌<◌, ◌≡◌, ◌↔◌, inr, refl, true, false, none, some, [], ◌∷◌, arith}
use momotaro.Prelude.Int.{pos, ◌≤ℤ◌}
use momotaro.Prelude.Text.{codes}
use momotaro.Platform.Time.{Time}
use momotaro.Proto.{RecordType, Source, RootCauseBucket, ActionType}
use momotaro.Classifier.{ProviderError, Rung, ComposeNudgeRequest, ComposeNudgeResponse}
use momotaro.Classifier.Breaker.{
  BreakerConfig, Breaker, admit, record_outcome_of, record_failure, guarded,
}
use momotaro.Classifier.Breaker.Circuit.{IsConfig, ClosedBelow, after_failures, failures_open_iff}
use momotaro.Classifier.Breaker.Guarded.{guarded_recovers}
use momotaro.Classifier.Breaker.Trials.{
  Traffic, arrive, land, TrafficReach, start, next, trials, one_trial,
}
use momotaro.Classifier.Nudge.{nudge_method, validate_nudge}

abbrev breaker_config : BreakerConfig
breaker_config = record { threshold = pos 3; cooldown = pos 60000000000 }

breaker_config-IsConfig : IsConfig breaker_config
breaker_config-IsConfig = record {
  threshold_positive = omega arith;
  cooldown_positive = omega arith;
}

abbrev network_error : ProviderError
network_error = record { is_circuit_open = false; throttled = none; is_deadline_exceeded = false }

failures_open_iff_example :
    let b =
      after_failures breaker_config
        ((1, network_error) ∷ (2, network_error) ∷ (3, network_error) ∷ [])
        (record { consecutive = 0; open_until = 0; trial_in_flight = false }) in
    (0 < b.open_until) ↔ (pos 3 ≤ℤ pos 3)
failures_open_iff_example =
    failures_open_iff breaker_config
      ((1, network_error) ∷ (2, network_error) ∷ (3, network_error) ∷ []) breaker_config-IsConfig
      (refl, (refl, (refl, tt)))

-- Two requests arrive and the first one lands as a failure.
abbrev one_failed : Traffic
one_failed = record {
  breaker = record { consecutive = 1; open_until = 0; trial_in_flight = false };
  calls = false ∷ [];
}

one_failed_reached :
    TrafficReach breaker_config
      (record {
        breaker = record { consecutive = 0; open_until = 0; trial_in_flight = false };
        calls = [];
      })
      one_failed
unfolding admit record_outcome_of record_failure
one_failed_reached =
    next (next (next start (arrive 1)) (arrive 2))
      (land 3 (some network_error) false [] (false ∷ []) refl)

one_trial_example : (trials one_failed.calls ≤ 1) × ClosedBelow breaker_config one_failed.breaker
one_trial_example = one_trial breaker_config one_failed breaker_config-IsConfig one_failed_reached

-- The minute of an opened circuit is over.
abbrev opened : Breaker
opened = record { consecutive = 3; open_until = 60000000005; trial_in_flight = false }

abbrev written : ComposeNudgeResponse
written = record {
  message = codes "Your payment of {{AMOUNT}} is due";
  source = Source.unspecified;
  hops = [];
}

abbrev reminding : Rung (Time × Breaker) ComposeNudgeRequest ComposeNudgeResponse
reminding = record { name = codes "groq"; call = λ deadline q w. (inr (some written), w) }

abbrev request : ComposeNudgeRequest
request = record {
  payment = record {
    id = codes "7";
    type = RecordType.invoice;
    amount_paise = pos 500000;
    failure_code = [];
    error_source = [];
    error_step = [];
  };
  bucket = RootCauseBucket.overdue;
  action_type = ActionType.nudge_reminder;
  max_chars = pos 160;
  force_template_only = false;
}

abbrev breaker_of : Time × Breaker → Breaker
breaker_of (t, b) = b

abbrev with_breaker : Breaker → Time × Breaker → Time × Breaker
with_breaker b (t, _) = (t, b)

guarded_recovers_example :
    let (reply, w') =
      (guarded nudge_method
          (λ (w : Time × Breaker). w.0)
          breaker_of
          with_breaker
          breaker_config
          reminding).call
        none request
        (70000000000, opened) in
    (reply ≡ inr (some written))
    × ((breaker_of w').open_until ≡ 0)
    × ((breaker_of w').consecutive ≡ 0)
    × (admit 70000000001 (breaker_of w') ≡ (false, true, breaker_of w'))
guarded_recovers_example =
    guarded_recovers nudge_method (λ (w : Time × Breaker). w.0) breaker_of with_breaker
      breaker_config reminding none request (70000000000, opened) written 70000000001
      (record { get_put = λ b w. refl; put_get = λ w. refl }) (omega arith) refl (λ b. refl)
      (unfold validate_nudge in refl)
