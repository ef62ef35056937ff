-- ===== src/Classifier.antt =====
-- services/classifier/internal/provider: what the chains and the breakers share. provider.go,
-- validate.go and budget.go, with the messages of proto/classifier/v1/classifier.proto.
pub mod Rules
pub mod Taxonomy
pub mod Chain
pub mod Breaker
pub mod Nudge
pub mod Server
use momotaro.Prelude.{
  ℕ, ◌+◌, Bool, true, false, not, ◌&&◌, ◌||◌, Option, none, some, List, [], ◌∷◌, ◌⊎◌, inl, inr,
  String, ltb, if◌then◌else◌,
}
use momotaro.Prelude.Int.{ℤ, pos, ◌-ℤ◌, wrap64, ltb_ℤ, leb_ℤ}
use momotaro.Prelude.Text.{Bytes, codes, same}
use momotaro.Platform.Float.{Float}
use momotaro.Platform.HopCodec.{ProviderHop}
use momotaro.Platform.Time.{Time, Duration, add, since}
use momotaro.Proto.{RecordType, RootCauseBucket, ActionType, Source}

-- What the rules read of common.v1.Record. A field that is not set is empty.
pub record PaymentRecord : Type 0 where
  pub id : Bytes
  pub type : RecordType
  pub amount_paise : ℤ
  pub failure_code : Bytes
  pub error_source : Bytes
  pub error_step : Bytes

-- The histories of a request are read by the language models only.
pub record ClassifyRequest : Type 0 where
  pub payment : PaymentRecord
  pub force_rules_only : Bool

-- The formats of rationale.go with their arguments, and the text of a model.
pub data Rationale : Type 0 where
  indeterminate : Bytes → ActionType → Rationale
  no_code : RootCauseBucket → ActionType → Rationale
  unlisted_code : Bytes → RootCauseBucket → ActionType → Rationale
  listed_code : Bytes → RootCauseBucket → ActionType → Rationale
  taxonomy : Bytes → Bytes → Bytes → RootCauseBucket → ActionType → Rationale
  written : Bytes → Rationale

pub record ClassifyResponse (F : Type 0) : Type 0 where
  pub bucket : RootCauseBucket
  pub recommended_action : ActionType
  pub rationale : Rationale
  pub confidence : F
  pub source : Source
  pub hops : List ProviderHop

pub record ComposeNudgeRequest : Type 0 where
  pub payment : PaymentRecord
  pub bucket : RootCauseBucket
  pub action_type : ActionType
  pub max_chars : ℤ
  pub force_template_only : Bool

pub record ComposeNudgeResponse : Type 0 where
  pub message : Bytes
  pub source : Source
  pub hops : List ProviderHop

-- The vocabulary of hops.
pub data HopResult : Type 0 where
  ok error timeout schema_invalid deadline_exhausted circuit_open rate_limited : HopResult

abbrev pub hop_text : HopResult → Bytes
hop_text ok = codes "ok"
hop_text error = codes "error"
hop_text timeout = codes "timeout"
hop_text schema_invalid = codes "schema_invalid"
hop_text deadline_exhausted = codes "deadline_exhausted"
hop_text circuit_open = codes "circuit_open"
hop_text rate_limited = codes "rate_limited"

abbrev pub rules_name : Bytes
rules_name = codes "rules"

-- `name == RulesName`.
unfoldable pub is_rules : Bytes → Bool
is_rules name = same name rules_name

abbrev pub new_hop : Bytes → HopResult → ProviderHop
new_hop name r = record { provider = name; result = hop_text r }

-- What `errors.Is` and `errors.As` find in an error: the open circuit, a provider's throttling with
-- the cooldown it asks for, and the context's deadline.
pub record ProviderError : Type 0 where
  pub is_circuit_open : Bool
  pub throttled : Option Duration
  pub is_deadline_exceeded : Bool

-- A rung: its name, and its call under a deadline. `W` is the world outside, clocks and the state of
-- other requests included; a call may change it. `none` is a nil response.
pub record Rung (W Q R : Type 0) : Type 0 where
  pub name : Bytes
  pub call : Option Time → Q → W → (ProviderError ⊎ Option R) × W

-- What distinguishes `Classify` from `ComposeNudge` in a chain: the check of a response, the fields
-- that the chain fills in, and the flag that leaves only the terminal rung.
pub record Method (Q R : Type 0) : Type 0 where
  pub is_valid : Q → R → Bool
  pub stamp : List ProviderHop → Source → R → R
  pub forced : Q → Bool

abbrev pub is_named_bucket : RootCauseBucket → Bool
is_named_bucket (RootCauseBucket.unrecognized n) = false
is_named_bucket b = true

abbrev pub is_named_action : ActionType → Bool
is_named_action (ActionType.unrecognized n) = false
is_named_action a = true

module _ {F : Type 0} ⦃fl : Float F⦄ where
  -- `validate`, of a response that is not nil: whether it is accepted.
  unfoldable pub validate_response : ClassifyResponse F → Bool
  validate_response r =
      is_named_bucket r.bucket
      && is_named_action r.recommended_action
      && not (fl.lt r.confidence (fl.of_int (pos 0)) || fl.lt (fl.of_int (pos 1)) r.confidence)

  abbrev pub classify_method : Method ClassifyRequest (ClassifyResponse F)
  classify_method = record {
    is_valid = λ q r. validate_response r;
    stamp = λ hops source r. record r { source = source; hops = hops };
    forced = λ q. q.force_rules_only;
  }

-- provider.Config.
pub record ChainConfig : Type 0 where
  pub rung_timeout : Duration
  pub reserve : Duration

abbrev pub min_time : Time → Time → Time
min_time t u = if ltb u t then u else t

abbrev min_duration : Duration → Duration → Duration
min_duration d e = if ltb_ℤ e d then e else d

-- `rungCtx` at time `t`: `none` if the rung cannot be afforded, otherwise the deadline of its
-- context. The deadline of a context is never later than its parent's.
unfoldable pub rung_ctx : Option Time → Duration → Duration → Bool → Time → Option (Option Time)
rung_ctx parent per_rung reserve true t = some parent
rung_ctx none per_rung reserve false t = some (some (add t per_rung))
rung_ctx (some deadline) per_rung reserve false t =
    let budget = wrap64 (since deadline t -ℤ reserve) in
    if leb_ℤ budget (pos 0)
    then none
    else some (some (min_time deadline (add t (min_duration per_rung budget))))
