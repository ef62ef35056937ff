-- ===== src/Classifier/Server/Total.antt =====
-- What the calls of services/classifier/internal/server/server.go promise over a chain that was built.
use momotaro.Prelude.{
  ◌≡◌, refl, sym, ap, ◌∙◌, true, false, Option, none, some, List, [], ◌∷◌, ◌⊎◌, inl, inr,
  if◌then◌else◌, Bool-cases,
}
use momotaro.Prelude.Int.{ℤ}
use momotaro.Prelude.Text.{Bytes, same}
use momotaro.Platform.Float.{Float, HasUnitQuotients}
use momotaro.Platform.HopCodec.{is_empty}
use momotaro.Platform.Time.{Time}
use momotaro.Proto.{Source}
use momotaro.Classifier.{
  PaymentRecord, ClassifyRequest, ClassifyResponse, ComposeNudgeRequest, ComposeNudgeResponse, ok,
  Rung, ChainConfig, rules_name, is_rules, new_hop,
}
use momotaro.Classifier.Chain.{Chain, new_chain, call_chain, only_rules_rung}
use momotaro.Classifier.Chain.Answers.{walk_valid}
use momotaro.Classifier.Chain.Forced.{forced-rules_only}
use momotaro.Classifier.Chain.Trace.{IsRegistry}
use momotaro.Classifier.Nudge.{
  amount_placeholder, replace_all, validate_nudge, nudge_method, chain_compose_nudge,
}
use momotaro.Classifier.Nudge.Figures.{digits, shown_digits}
use momotaro.Classifier.Rules.{rules_rung, rules_classify}
use momotaro.Classifier.Server.{
  Counters, ServeError, llm_was_attempted, format_rupees, substitute_amount, finish_classify,
  finish_compose_nudge, serve_classify, serve_compose_nudge,
}

module _ {W : Type 0} (F : Type 0) ⦃fl : Float F⦄ (laws : HasUnitQuotients F) where
  -- A request for a record with an id that is not empty and that is forced to the rules is served over
  -- every chain that was built from a registry that holds each rung under its own name and the rules
  -- engine under "rules": the answer is the rules' own, no other provider is called, nothing outside changes, and it is not counted as a
  -- fallback.
  pub forced-served :
      (names : List Bytes) (registry : Bytes → Option (Rung W ClassifyRequest (ClassifyResponse F)))
      (cfg : ChainConfig) (chain : Chain W ClassifyRequest (ClassifyResponse F)) (now : W → Time)
      (deadline : Option Time) (rec : PaymentRecord) (counters : Counters) (w : W)
      → IsRegistry registry
      → registry rules_name ≡ some rules_rung
      → new_chain names registry cfg ≡ inr chain
      → is_empty rec.id ≡ false
      → serve_classify now chain deadline (some rec) true (counters, w) ≡ (
        inr (record (rules_classify (record { payment = rec; force_rules_only = true })) {
          source = Source.rules_fallback;
          hops = new_hop rules_name ok ∷ [];
        }),
        counters,
        w,
      )
  unfolding serve_classify llm_was_attempted is_rules same
  forced-served names registry cfg chain now deadline rec counters w reg rules built id = rw id (
      ap (finish_classify counters) (
        forced-rules_only F laws names registry cfg chain now deadline
          (record { payment = rec; force_rules_only = true }) w reg rules built refl))

-- The text of an answer.
abbrev message_of : ServeError ⊎ ComposeNudgeResponse → Bytes
message_of (inl e) = []
message_of (inr resp) = resp.message

module _ {W : Type 0} where
  chain_valid :
      (now : W → Time) (chain : Chain W ComposeNudgeRequest ComposeNudgeResponse)
      (deadline : Option Time) (q : ComposeNudgeRequest) (w : W) (out : ComposeNudgeResponse)
      → (chain_compose_nudge now chain deadline q w).0 ≡ some out
      → (resp : ComposeNudgeResponse) × (validate_nudge q.max_chars resp ≡ true)
        × (out.message ≡ resp.message)
  unfolding chain_compose_nudge call_chain
  chain_valid now chain deadline q w out e =
      let (hops, source, resp, v, s) =
        walk_valid nudge_method (λ name. Unit {0}) now chain.cfg deadline q
          (if q.force_template_only then only_rules_rung chain.rungs else chain.rungs) [] w e in
      (resp, v, ap (λ (r : ComposeNudgeResponse). r.message) s)

  finished_digits :
      (amount : ℤ) (max_chars : ℤ) (counters after : Counters)
      (out : Option ComposeNudgeResponse × W) (w' : W) (resp : ComposeNudgeResponse)
      → ((msg : ComposeNudgeResponse)
          → out.0 ≡ some msg
          → (r : ComposeNudgeResponse) × (validate_nudge max_chars r ≡ true)
            × (msg.message ≡ r.message))
      → finish_compose_nudge amount counters out ≡ (inr resp, after, w')
      → (digits resp.message ≡ []) ⊎ (digits resp.message ≡ digits (format_rupees amount))
  unfolding finish_compose_nudge substitute_amount
  finished_digits amount max_chars counters after (none, v) w' resp valid e = cc
  finished_digits amount max_chars counters after (some msg, v) w' resp valid e =
      let (r, v', m) = valid msg refl in
      let shown : resp.message ≡ replace_all amount_placeholder (format_rupees amount) r.message =
        sent ∙ ap (replace_all amount_placeholder (format_rupees amount)) m in
      rw shown (shown_digits max_chars r (format_rupees amount) v')
    where
      sent : resp.message ≡ replace_all amount_placeholder (format_rupees amount) msg.message
      sent =
          ap (λ (out : (ServeError ⊎ ComposeNudgeResponse) × Counters × W). message_of out.0)
            (sym e)

  -- Whatever the rungs of a chain answer, the digits 0 to 9 of a message that is served are none, or those of
  -- the record's amount as the server prints it, once.
  pub served_digits :
      (chain : Chain W ComposeNudgeRequest ComposeNudgeResponse) (now : W → Time)
      (deadline : Option Time) (rec : PaymentRecord) (request : PaymentRecord → ComposeNudgeRequest)
      (counters after : Counters) (w w' : W) (resp : ComposeNudgeResponse)
      → serve_compose_nudge now chain deadline (some rec) request (counters, w)
        ≡ (inr resp, after, w')
      → (digits resp.message ≡ []) ⊎ (digits resp.message ≡ digits (format_rupees rec.amount_paise))
  unfolding serve_compose_nudge
  served_digits chain now deadline rec request counters after w w' resp e =
      elim (Bool-cases (is_empty rec.id)) [
        | inl b ↦ cc (rw b at e)
        | inr b ↦
            finished_digits rec.amount_paise (request rec).max_chars counters after
              (chain_compose_nudge now chain deadline (request rec) w) w' resp
              (chain_valid now chain deadline (request rec) w) (rw b at e)
      ]
