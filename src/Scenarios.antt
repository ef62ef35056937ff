-- ===== src/Scenarios.antt =====
-- Concrete inputs: a fixed-point number for `float64`, a configuration, a database with one record,
-- and the theorems applied to them.
pub mod Decisions
pub mod Runs
pub mod Nudges
pub mod Executions
pub mod Budgets
pub mod Classifications
pub mod Messages
pub mod Breakers
pub mod Intake
pub mod Downtimes
use momotaro.Prelude.{
  ℕ, suc, ◌+◌, ◌-◌, ◌*◌, ◌/◌, ◌==◌, ◌≡◌, refl, ◌⊎◌, Bool, not, true, false, Option, none, some,
  List, [], ◌∷◌, arith, ltb, leb,
}
use momotaro.Prelude.Int.{ℤ, pos, negsuc}
use momotaro.Platform.Float.{Float, IsOrdered}
use momotaro.Platform.Time.{Time, Duration, nanos_per_hour, nanos_per_day}
use momotaro.Proto.{RecordType, RootCauseBucket, ActionType, Source, Outcome}
use momotaro.Database.{Db, RecordRow}
use momotaro.Decision.Economics.{Model, ActionCost, AttemptPriors}
use momotaro.Decision.Engine.{EngineConfig, RawEvent, ClassifyResponse}
use momotaro.Decision.Guardrails.{GuardrailConfig, AttemptHistory}
use momotaro.Decision.Store.Reads.{no_downtime}

-- Numbers that are not negative, in units of one part in ten thousand.
abbrev pub Fixed : Type 0
Fixed = ℕ

abbrev of_int : ℤ → Fixed
of_int (pos n) = n * 10000
of_int (negsuc n) = 0

instance unfoldable pub fixed : Float Fixed
fixed = record {
  of_int = of_int;
  trunc = λ x. pos (x / 10000);
  sub = λ x y. x - y;
  mul = λ x y. x * y / 10000;
  div = λ x y. x * 10000 / y;
  le = leb;
  lt = ltb;
  eq = λ x y. x == y;
}

leb_trans : (x y z : ℕ) → leb x y ≡ true → leb y z ≡ true → leb x z ≡ true
leb_trans x y z p q = ground arith

leb_total : (x y : ℕ) → (leb x y ≡ true) ⊎ (leb y x ≡ true)
leb_total x y = ground arith

ltb-not-leb : (x y : ℕ) → ltb x y ≡ not (leb y x)
ltb-not-leb x y = ground arith

leb_refl : (x : ℕ) → leb x x ≡ true
leb_refl x = ground arith

pub fixed_ordered : IsOrdered Fixed
unfolding fixed
fixed_ordered = record {
  le_trans = leb_trans;
  le_total = λ x y p q. leb_total x y;
  lt-eq-not-le = λ x y p q. ltb-not-leb x y;
  of_int_number = λ z. leb_refl (of_int z);
}

abbrev pub start_time : Time
start_time = 738000 * nanos_per_day + 6 * nanos_per_hour

abbrev pub guardrails : GuardrailConfig
guardrails = record {
  max_retries = pos 3;
  max_contacts = pos 2;
  contact_cooldown = pos (24 * nanos_per_hour);
  recovery_window = pos (240 * nanos_per_hour);
}

-- A retry gains 3000 bps in every bucket, a nudge 2000 bps; a retry costs 50 paise, a nudge 25.
abbrev pub model : Model
model = record {
  costs = λ a. elim a [
    | ActionType.retry ↦ some (record { direct_paise = pos 50; indirect_paise = pos 0 })
    | _ ↦ some (record { direct_paise = pos 25; indirect_paise = pos 0 })
  ];
  priors = λ a b. elim a [
    | ActionType.retry ↦ some (record {
      attempt1 = some (pos 3000);
      attempt2 = none;
      attempt3 = none;
      all_attempts = none;
    })
    | _ ↦ some (record {
      attempt1 = some (pos 2000);
      attempt2 = some (pos 1000);
      attempt3 = none;
      all_attempts = none;
    })
  ];
  beyond_listed_attempts_bps = pos 0;
}

abbrev pub config : EngineConfig Fixed
config = record {
  retry_delay = pos nanos_per_hour;
  nudge_delay = pos nanos_per_hour;
  retry_mandate_lead_time = pos (24 * nanos_per_hour);
  time_scale = 10000;
  guardrails = guardrails;
  classify_confidence_threshold = 0;
}

abbrev pub event : RawEvent
event = record {
  record_id = 7;
  batch_id = 1;
  type = RecordType.invoice;
  amount_paise = pos 500000;
  instrument_ref = none;
}

abbrev pub answer : ClassifyResponse Fixed
answer = record {
  bucket = RootCauseBucket.transient_bank;
  confidence = 9000;
  recommended_action = ActionType.retry;
  rationale = "bank timeout";
  source = Source.rules_fallback;
}

abbrev pub record_row : RecordRow
record_row = record {
  id = 7;
  batch_id = 1;
  type = RecordType.invoice;
  amount_paise = pos 500000;
  instrument_ref = none;
  created_at = start_time;
}

abbrev pub ingested : Db Fixed
ingested = record {
  records = record_row ∷ [];
  states = [];
  audit = [];
  attempts = [];
  downtimes = [];
}

abbrev pub history : AttemptHistory
history = record {
  retries = 1;
  contacts = 0;
  last_contact_at = none;
  record_created_at = start_time;
}

-- A model in which only a nudge to update the method gains anything.
abbrev pub nudging : Model
nudging = record model {
  priors = λ a b. elim a [
    | ActionType.nudge_method_update ↦ some (record {
      attempt1 = some (pos 2000);
      attempt2 = some (pos 1000);
      attempt3 = none;
      all_attempts = none;
    })
    | _ ↦ none
  ];
}
