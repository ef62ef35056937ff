-- ===== src/Scenarios/Messages.antt =====
-- Messages that a model composes before the templates, over the clock and the chain of the
-- classifications.
use momotaro.Prelude.{◌+◌, ◌≡◌, ◌⊎◌, inr, refl, false, some, [], ◌∷◌, arith}
use momotaro.Prelude.Int.{pos, wrap64, ◌-ℤ◌, saturate64, ◌*ℤ◌, div_ℤ}
use momotaro.Prelude.Text.{codes, same}
use momotaro.Platform.Time.{Time}
use momotaro.Proto.{RootCauseBucket, ActionType, Source}
use momotaro.Classifier.{
  ComposeNudgeRequest, ComposeNudgeResponse, ok, is_rules, new_hop, Rung, rung_ctx,
}
use momotaro.Classifier.Chain.{call_chain, walk}
use momotaro.Classifier.Chain.Answers.{Answered}
use momotaro.Classifier.Chain.Trace.{CleanName}
use momotaro.Classifier.Nudge.{
  nudge_method, template_rung, chain_compose_nudge, validate_nudge, nudge_template_for,
}
use momotaro.Classifier.Nudge.Figures.{digits}
use momotaro.Classifier.Nudge.Templates.{compose_nudge-Answered}
use momotaro.Classifier.Server.{Counters, serve_compose_nudge, format_rupees, substitute_amount}
use momotaro.Classifier.Server.Total.{served_digits}
use momotaro.Scenarios.{fixed}
use momotaro.Scenarios.Classifications.{
  groq_name, two_rungs, two_rungs-IsRegistry, names, chain_config, chain_of, chain_built, timed_out,
  rules_known,
}

-- A model that writes a figure of its own.
abbrev inventive : Rung Time ComposeNudgeRequest ComposeNudgeResponse
inventive = record {
  name = groq_name;
  call = λ deadline q t. (
    inr (
        some (record { message = codes "Pay Rs. 99 now"; source = Source.unspecified; hops = [] })),
    t + 3000000000,
  );
}

abbrev reminder : ComposeNudgeRequest
reminder = record {
  payment = timed_out;
  bucket = RootCauseBucket.overdue;
  action_type = ActionType.nudge_reminder;
  max_chars = pos 160;
  force_template_only = false;
}

compose_nudge-Answered_example :
    Answered nudge_method CleanName reminder
      (chain_compose_nudge
        (λ t. t)
        (chain_of inventive template_rung)
        (some 10000000000)
        reminder
        0).0
unfolding template_rung
compose_nudge-Answered_example =
    compose_nudge-Answered names (two_rungs inventive template_rung) chain_config
      (chain_of inventive template_rung) (λ t. t) (some 10000000000) reminder 0
      (two_rungs-IsRegistry inventive template_rung refl refl) (rules_known inventive template_rung)
      (chain_built inventive template_rung) refl (omega arith)

-- A model that keeps to the placeholder.
abbrev obedient : Rung Time ComposeNudgeRequest ComposeNudgeResponse
obedient = record inventive {
  call = λ deadline q t. (
    inr (
        some (record {
          message = codes "Pay {{AMOUNT}} now";
          source = Source.unspecified;
          hops = [];
        })),
    t + 3000000000,
  );
}

abbrev no_fallbacks : Counters
no_fallbacks = record { fallback = 0; nudge_fallback = 0 }

abbrev served : ComposeNudgeResponse
served = record {
  message = codes "Pay Rs 5000 now";
  source = Source.llm;
  hops = new_hop groq_name ok ∷ [];
}

reminded :
    serve_compose_nudge
      (λ t. t)
      (chain_of obedient template_rung)
      (some 10000000000)
      (some timed_out)
      (λ rec. record reminder { payment = rec })
      (no_fallbacks, 0)
    ≡ (inr served, no_fallbacks, 3000000000)
unfolding serve_compose_nudge call_chain chain_compose_nudge walk validate_nudge nudge_template_for
    substitute_amount format_rupees rung_ctx template_rung is_rules same wrap64 ◌-ℤ◌ saturate64 ◌*ℤ◌
    div_ℤ
reminded = refl

served_digits_example :
    (digits served.message ≡ []) ⊎ (digits served.message ≡ digits (format_rupees (pos 500000)))
served_digits_example =
    served_digits (chain_of obedient template_rung) (λ t. t) (some 10000000000) timed_out
      (λ rec. record reminder { payment = rec }) no_fallbacks no_fallbacks 0 3000000000 served
      reminded

-- A template of 18 bytes passes a limit of 18; with its amount in place the message has 19.
past_limit :
    serve_compose_nudge
      (λ t. t)
      (chain_of obedient template_rung)
      (some 10000000000)
      (some (record timed_out { amount_paise = pos 1234567 }))
      (λ rec. record reminder { payment = rec; max_chars = pos 18 })
      (no_fallbacks, 0)
    ≡ (inr (record served { message = codes "Pay Rs 12345.67 now" }), no_fallbacks, 3000000000)
unfolding serve_compose_nudge call_chain chain_compose_nudge walk validate_nudge nudge_template_for
    substitute_amount format_rupees rung_ctx template_rung is_rules same wrap64 ◌-ℤ◌ saturate64 ◌*ℤ◌
    div_ℤ
past_limit = refl
