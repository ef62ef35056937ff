-- ===== src/Classifier/Nudge.antt =====
-- services/classifier/internal/provider/validate_nudge.go, nudge.go and nudge_breaker.go, and
-- services/classifier/internal/rules/nudge_templates.go: messages to customers.
pub mod Templates
pub mod Figures
use momotaro.Prelude.{
  ℕ, zero, suc, ◌+◌, ◌-◌, ◌^◌, ◌%◌, ◌==◌, ◌&&◌, ◌||◌, Bool, true, false, not, Option, none, some,
  List, [], ◌∷◌, ◌++◌, ◌⊎◌, inl, inr, String, leb, ltb, map, length, if◌then◌else◌,
}
use momotaro.Prelude.Int.{ℤ, pos, sub_ℕ, ltb_ℤ}
use momotaro.Prelude.Text.{Bytes, codes, strip_prefix}
use momotaro.Platform.HopCodec.{is_empty}
use momotaro.Platform.Time.{Time}
use momotaro.Proto.{RootCauseBucket, Source}
use momotaro.Classifier.{
  ComposeNudgeRequest, ComposeNudgeResponse, Rung, Method, ProviderError, rules_name,
}
use momotaro.Classifier.Chain.{Chain, call_chain}
use momotaro.Classifier.Breaker.{BreakerConfig, Breaker, guarded}

-- `AmountPlaceholder`.
abbrev pub amount_placeholder : Bytes
amount_placeholder = codes "{{AMOUNT}}"

-- `strings.ReplaceAll(s, p, r)` for a text `p` that is not empty, from a place where the next bytes,
-- as many as the number says, belong to an occurrence that is already replaced.
unfoldable pub replace_from : Bytes → Bytes → ℕ → Bytes → Bytes
replace_from p r skip [] = []
replace_from p r (suc skip) (c ∷ s) = replace_from p r skip s
replace_from p r zero (c ∷ s) = elim (strip_prefix p (c ∷ s)) [
  | some rest ↦ r ++ replace_from p r (length p - 1) s
  | none ↦ c ∷ replace_from p r zero s
]

abbrev pub replace_all : Bytes → Bytes → Bytes → Bytes
replace_all p r s = replace_from p r zero s

-- `strings.Count(s, p)`, likewise.
unfoldable pub count_from : Bytes → ℕ → Bytes → ℕ
count_from p skip [] = 0
count_from p (suc skip) (c ∷ s) = count_from p skip s
count_from p zero (c ∷ s) = elim (strip_prefix p (c ∷ s)) [
  | some rest ↦ suc (count_from p (length p - 1) s)
  | none ↦ count_from p zero s
]

-- `unicode.IsDigit` on ASCII, and `containsDigit`. Beyond ASCII, Go also counts the decimal digits of
-- other scripts, which are left out here: they make it refuse more messages.
abbrev pub is_digit : ℕ → Bool
is_digit c = leb b'0' c && leb c b'9'

unfoldable pub contains_digit : Bytes → Bool
contains_digit [] = false
contains_digit (c ∷ s) = is_digit c || contains_digit s

abbrev is_word : ℕ → Bool
is_word c = is_digit c || (leb b'a' c && leb c b'z') || (leb b'A' c && leb c b'Z') || c == b'_'

abbrev lower : ℕ → ℕ
lower c = if leb b'A' c && leb c b'Z' then c + 32 else c

starts_word : Bytes → Bool
starts_word [] = false
starts_word (c ∷ s) = is_word c

abbrev is_whole : Option Bytes → Bool
is_whole none = false
is_whole (some rest) = not (starts_word rest)

-- The terms of `buildForbiddenVocabularyPattern`: the names of three enums, and `enumMetaWords`.
abbrev forbidden_terms : List String
forbidden_terms =
    "root_cause_bucket_unspecified" ∷ "root_cause_bucket_transient_bank"
    ∷ "root_cause_bucket_insufficient_funds" ∷ "root_cause_bucket_hard_decline"
    ∷ "root_cause_bucket_user_action_needed" ∷ "root_cause_bucket_risk_hold"
    ∷ "root_cause_bucket_abandonment" ∷ "root_cause_bucket_overdue" ∷ "action_type_unspecified"
    ∷ "action_type_retry" ∷ "action_type_nudge_method_update" ∷ "action_type_nudge_reminder"
    ∷ "action_type_escalate" ∷ "action_type_none" ∷ "record_state_unspecified" ∷ "record_state_new"
    ∷ "record_state_scoring" ∷ "record_state_retry_scheduled" ∷ "record_state_retrying"
    ∷ "record_state_nudge_scheduled" ∷ "record_state_nudged" ∷ "record_state_recovered"
    ∷ "record_state_escalated" ∷ "record_state_closed_uneconomic" ∷ "bucket" ∷ "root cause"
    ∷ "action type" ∷ "record state" ∷ []

term_at : List String → Bytes → Bool
unfolding strip_prefix starts_word
term_at [] s = false
term_at (term ∷ terms) s = is_whole (strip_prefix (codes term) s) || term_at terms s

-- Whether `forbiddenVocabularyPattern` matches: a term, in any case, between word boundaries. The flag
-- says whether the byte before is of a word.
unfoldable pub leaks : Bool → Bytes → Bool
unfolding term_at
leaks in_word [] = false
leaks in_word (c ∷ s) =
    (not in_word && term_at forbidden_terms (map lower (c ∷ s))) || leaks (is_word c) s

-- `int32(n)`.
abbrev pub to_int32 : ℕ → ℤ
to_int32 n = if ltb (n % 2 ^ 32) (2 ^ 31) then pos (n % 2 ^ 32) else sub_ℕ (n % 2 ^ 32) (2 ^ 32)

-- The checks of a message that do not depend on the request.
unfoldable pub is_clean : Bytes → Bool
unfolding count_from contains_digit leaks replace_from
is_clean message =
    not (ltb 1 (count_from amount_placeholder 0 message))
    && not (contains_digit (replace_all amount_placeholder [] message))
    && not (leaks false message)

-- `validateNudge`, of a response that is not nil: whether it is accepted.
unfoldable pub validate_nudge : ℤ → ComposeNudgeResponse → Bool
unfolding is_clean
validate_nudge max_chars resp =
    not (is_empty resp.message)
    && not (ltb_ℤ max_chars (to_int32 (length resp.message)))
    && is_clean resp.message

-- `nudgeTemplateFor`.
unfoldable pub nudge_template_for : RootCauseBucket → Bytes
nudge_template_for RootCauseBucket.transient_bank =
    codes
      "Aapka {{AMOUNT}} ka payment ek technical issue ki wajah se fail ho gaya tha. Hum dobara try kar rahe hain, chinta na karein!"
nudge_template_for RootCauseBucket.insufficient_funds =
    codes
      "Aapka {{AMOUNT}} ka payment kam balance ki wajah se fail ho gaya. Balance aane par hum dobara try karenge."
nudge_template_for RootCauseBucket.hard_decline =
    codes
      "Aapka {{AMOUNT}} ka payment fail ho gaya kyunki aapka card kaam nahi kar raha. Please apna payment method update karein."
nudge_template_for RootCauseBucket.user_action_needed =
    codes
      "Aapke {{AMOUNT}} ke payment ko poora karne ke liye thoda action chahiye. Please apni details check aur update karein."
nudge_template_for RootCauseBucket.risk_hold =
    codes
      "Aapka payment security check ke liye hold par hai. Hamari team jald aapse contact karegi."
nudge_template_for RootCauseBucket.abandonment =
    codes
      "Aapne apna {{AMOUNT}} ka order abhi complete nahi kiya. Wapas aaiye aur apna payment poora karein!"
nudge_template_for RootCauseBucket.overdue =
    codes "Aapka {{AMOUNT}} ka invoice overdue hai. Please jaldi se payment complete karein."
nudge_template_for RootCauseBucket.unspecified =
    codes "Aapke payment mein kuch issue aaya hai. Hamari team jald aapse sampark karegi."
nudge_template_for (RootCauseBucket.unrecognized n) = []

-- TemplateNudgeProvider.
unfoldable pub template_rung : {W : Type 0} → Rung W ComposeNudgeRequest ComposeNudgeResponse
unfolding nudge_template_for
template_rung = record {
  name = rules_name;
  call = λ deadline q w. (
    inr (
        some (record {
          message = nudge_template_for q.bucket;
          source = Source.unspecified;
          hops = [];
        })),
    w,
  );
}

abbrev pub nudge_method : Method ComposeNudgeRequest ComposeNudgeResponse
nudge_method = record {
  is_valid = λ q resp. validate_nudge q.max_chars resp;
  stamp = λ hops source resp. record resp { source = source; hops = hops };
  forced = λ q. q.force_template_only;
}

module _ {W : Type 0} where
  -- `ComposeNudge` of a chain.
  unfoldable pub chain_compose_nudge :
      (W → Time)
      → Chain W ComposeNudgeRequest ComposeNudgeResponse
      → Option Time
      → ComposeNudgeRequest
      → W
      → Option ComposeNudgeResponse × W
  unfolding call_chain validate_nudge
  chain_compose_nudge = call_chain nudge_method

  -- A NudgeBreaker around a rung: the breaker of classifications with the check of nudges.
  unfoldable pub guarded_nudge :
      (W → Time)
      → (W → Breaker)
      → (Breaker → W → W)
      → BreakerConfig
      → Rung W ComposeNudgeRequest ComposeNudgeResponse
      → Rung W ComposeNudgeRequest ComposeNudgeResponse
  unfolding guarded validate_nudge
  guarded_nudge = guarded nudge_method
