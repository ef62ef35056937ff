-- ===== src/Classifier/Nudge/Templates.antt =====
-- The terminal rung of a nudge chain (services/classifier/internal/rules/nudge_templates.go) against the
-- check of services/classifier/internal/provider/validate_nudge.go.
use momotaro.Prelude.{
  ℕ, ◌≤◌, ◌≡◌, refl, true, false, Option, some, List, [], inr, length, arith, All-map,
}
use momotaro.Prelude.Int.{ℤ, pos, ◌≤ℤ◌}
use momotaro.Prelude.Text.{Bytes, strip_prefix}
use momotaro.Platform.HopCodec.{is_empty}
use momotaro.Platform.Time.{Time}
use momotaro.Proto.{RootCauseBucket, Source}
use momotaro.Classifier.{
  ComposeNudgeRequest, ComposeNudgeResponse, Rung, ChainConfig, rules_name, is_named_bucket,
}
use momotaro.Classifier.Chain.{Chain, new_chain}
use momotaro.Classifier.Chain.Terminal.{new_chain-IsResolved}
use momotaro.Classifier.Chain.Answers.{IsSure, Answered}
use momotaro.Classifier.Chain.Trace.{
  IsRegistry, CleanName, Registered-clean, call_chain-Answered, rules_named,
}
use momotaro.Classifier.Nudge.{
  is_clean, validate_nudge, nudge_template_for, template_rung, nudge_method, chain_compose_nudge,
  leaks, term_at, count_from, replace_from, contains_digit, to_int32,
}

template_clean :
    (b : RootCauseBucket) → is_named_bucket b ≡ true → is_clean (nudge_template_for b) ≡ true
unfolding is_clean nudge_template_for leaks term_at count_from replace_from contains_digit
    strip_prefix
template_clean (RootCauseBucket.unrecognized n) h = cc
template_clean RootCauseBucket.unspecified h = refl
template_clean b h = refl

template_fits :
    (b : RootCauseBucket)
    → is_named_bucket b ≡ true
    → (is_empty (nudge_template_for b) ≡ false) × (length (nudge_template_for b) ≤ 124)
unfolding nudge_template_for
template_fits (RootCauseBucket.unrecognized n) h = cc
template_fits RootCauseBucket.unspecified h = (refl, omega arith)
template_fits b h = (refl, omega arith)

small_int32 : (n : ℕ) → n ≤ 124 → to_int32 n ≡ pos n
small_int32 n h = ground arith

-- Every template is accepted if the request leaves room for 124 bytes.
template_valid :
    (max_chars : ℤ) (b : RootCauseBucket) (resp : ComposeNudgeResponse)
    → resp.message ≡ nudge_template_for b
    → is_named_bucket b ≡ true
    → pos 124 ≤ℤ max_chars
    → validate_nudge max_chars resp ≡ true
unfolding validate_nudge
template_valid max_chars b resp m h k =
    let (set, short) = template_fits b h in
    rw m (
      rw (set, template_clean b h, small_int32 (length (nudge_template_for b)) short)
        (ground (arith, short)))

module _ {W : Type 0} where
  template-IsSure :
      (q : ComposeNudgeRequest)
      → is_named_bucket q.bucket ≡ true
      → pos 124 ≤ℤ q.max_chars
      → IsSure nudge_method q (template_rung {W = W})
  unfolding template_rung
  template-IsSure q h k deadline w =
      let resp : ComposeNudgeResponse = record {
        message = nudge_template_for q.bucket;
        source = Source.unspecified;
        hops = [];
      } in
      (resp, refl, template_valid q.max_chars q.bucket resp refl h k)

  -- A nudge chain that was built, over a registry that holds each rung under its own name and the
  -- templates under "rules", composes a message for every bucket that has a name and every limit of at
  -- least 124 bytes, whatever the other rungs and the clock do: the message passes validateNudge, and
  -- its hops are failures followed by the hop of the rung that answered, which gives the source.
  pub compose_nudge-Answered :
      (names : List Bytes)
      (registry : Bytes → Option (Rung W ComposeNudgeRequest ComposeNudgeResponse))
      (cfg : ChainConfig) (chain : Chain W ComposeNudgeRequest ComposeNudgeResponse)
      (now : W → Time) (deadline : Option Time) (q : ComposeNudgeRequest) (w : W)
      → IsRegistry registry
      → registry rules_name ≡ some template_rung
      → new_chain names registry cfg ≡ inr chain
      → is_named_bucket q.bucket ≡ true
      → pos 124 ≤ℤ q.max_chars
      → Answered nudge_method CleanName q (chain_compose_nudge now chain deadline q w).0
  unfolding chain_compose_nudge template_rung
  compose_nudge-Answered names registry cfg chain now deadline q w reg rules built h k =
      let r = new_chain-IsResolved names registry cfg template_rung chain rules built in
      call_chain-Answered nudge_method CleanName now chain template_rung deadline q w
        (template-IsSure q h k) rules_named r.ends
        (All-map (Registered-clean registry reg) chain.rungs r.registered)
