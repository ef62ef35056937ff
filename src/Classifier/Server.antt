-- ===== src/Classifier/Server.antt =====
-- services/classifier/internal/server/server.go: the two calls of the Classifier service.
pub mod Total
use momotaro.Prelude.{
  ℕ, zero, suc, ◌+◌, ◌-◌, ◌*◌, ◌/◌, ◌%◌, ◌==◌, ◌&&◌, ◌||◌, Bool, true, false, not, Option, none,
  some, List, [], ◌∷◌, ◌++◌, ◌⊎◌, inl, inr, ltb, if◌then◌else◌,
}
use momotaro.Prelude.Int.{ℤ, pos, negsuc, div_ℤ, ◌-ℤ◌, ◌*ℤ◌}
use momotaro.Prelude.Text.{Bytes, codes}
use momotaro.Platform.Float.{Float}
use momotaro.Platform.HopCodec.{ProviderHop, is_empty}
use momotaro.Platform.Time.{Time}
use momotaro.Proto.{RootCauseBucket, ActionType, Source}
use momotaro.Classifier.{
  PaymentRecord, ClassifyRequest, ClassifyResponse, ComposeNudgeRequest, ComposeNudgeResponse,
  is_rules,
}
use momotaro.Classifier.Chain.{Chain, chain_classify}
use momotaro.Classifier.Nudge.{amount_placeholder, replace_all, replace_from, chain_compose_nudge}

-- The two counters of answers that the deterministic rung gave after another was tried.
pub record Counters : Type 0 where
  pub fallback : ℕ
  pub nudge_fallback : ℕ

pub data ServeError : Type 0 where
  record_required id_required no_answer : ServeError

-- `llmWasAttempted`.
unfoldable pub llm_was_attempted : List ProviderHop → Bool
llm_was_attempted [] = false
llm_was_attempted (h ∷ hops) = not (is_rules h.provider) || llm_was_attempted hops

abbrev is_fallback : Source → Bool
is_fallback Source.rules_fallback = true
is_fallback _ = false

-- The decimal digits of a number of at most as many digits as the fuel.
digits_of : ℕ → ℕ → Bytes
digits_of zero n = []
digits_of (suc fuel) n =
    let rest = digits_of fuel (n / 10) in
    if ltb n 10 then (b'0' + n) ∷ [] else rest ++ ((b'0' + n % 10) ∷ [])

-- `%d` of an `int64`, which has at most nineteen digits.
unfoldable pub decimal : ℤ → Bytes
unfolding digits_of
decimal (pos n) = digits_of 20 n
decimal (negsuc n) = b'-' ∷ digits_of 20 (suc n)

-- `%02d`.
abbrev padded : Bytes → Bytes
padded (c ∷ []) = b'0' ∷ c ∷ []
padded s = s

abbrev is_zero : ℤ → Bool
is_zero (pos n) = n == 0
is_zero (negsuc n) = false

-- `formatRupees`.
unfoldable pub format_rupees : ℤ → Bytes
unfolding decimal
format_rupees amount_paise =
    let rupees = div_ℤ amount_paise (pos 100) in
    let paise = amount_paise -ℤ (rupees *ℤ pos 100) in
    if is_zero paise
    then codes "Rs " ++ decimal rupees
    else codes "Rs " ++ (decimal rupees ++ (b'.' ∷ padded (decimal paise)))

-- `substituteAmount`.
unfoldable pub substitute_amount : Bytes → ℤ → Bytes
unfolding format_rupees replace_from
substitute_amount message amount_paise =
    replace_all amount_placeholder (format_rupees amount_paise) message

-- What `Classify` does with the chain's answer.
finish_classify :
    {F W : Type 0}
    → Counters
    → Option (ClassifyResponse F) × W
    → (ServeError ⊎ ClassifyResponse F) × Counters × W
unfolding llm_was_attempted
finish_classify counters (none, w') = (inl no_answer, counters, w')
finish_classify counters (some resp, w') = (
  inr resp,
  if is_fallback resp.source && llm_was_attempted resp.hops
      then record counters { fallback = counters.fallback + 1 }
      else counters,
  w',
)

-- What `ComposeNudge` does with the chain's answer.
finish_compose_nudge :
    {W : Type 0}
    → ℤ
    → Counters
    → Option ComposeNudgeResponse × W
    → (ServeError ⊎ ComposeNudgeResponse) × Counters × W
unfolding llm_was_attempted substitute_amount
finish_compose_nudge amount_paise counters (none, w') = (inl no_answer, counters, w')
finish_compose_nudge amount_paise counters (some resp, w') = (
  inr (record resp { message = substitute_amount resp.message amount_paise }),
  if is_fallback resp.source && llm_was_attempted resp.hops
      then record counters { nudge_fallback = counters.nudge_fallback + 1 }
      else counters,
  w',
)

module _ {F : Type 0} ⦃fl : Float F⦄ {W : Type 0} (now : W → Time) where
  -- `Classify`, of a record that may be missing.
  unfoldable pub serve_classify :
      Chain W ClassifyRequest (ClassifyResponse F)
      → Option Time
      → Option PaymentRecord
      → Bool
      → Counters × W
      → (ServeError ⊎ ClassifyResponse F) × Counters × W
  unfolding chain_classify finish_classify
  serve_classify chain deadline none forced (counters, w) = (inl record_required, counters, w)
  serve_classify chain deadline (some rec) forced (counters, w) =
      if is_empty rec.id
      then (inl id_required, counters, w)
      else finish_classify counters (
          chain_classify now chain deadline (record { payment = rec; force_rules_only = forced }) w)

module _ {W : Type 0} (now : W → Time) where
  -- `ComposeNudge`, of a request whose record may be missing.
  unfoldable pub serve_compose_nudge :
      Chain W ComposeNudgeRequest ComposeNudgeResponse
      → Option Time
      → Option PaymentRecord
      → (PaymentRecord → ComposeNudgeRequest)
      → Counters × W
      → (ServeError ⊎ ComposeNudgeResponse) × Counters × W
  unfolding chain_compose_nudge finish_compose_nudge
  serve_compose_nudge chain deadline none request (counters, w) = (inl record_required, counters, w)
  serve_compose_nudge chain deadline (some rec) request (counters, w) =
      if is_empty rec.id
      then (inl id_required, counters, w)
      else finish_compose_nudge rec.amount_paise counters
          (chain_compose_nudge now chain deadline (request rec) w)
