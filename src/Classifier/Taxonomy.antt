-- ===== src/Classifier/Taxonomy.antt =====
-- services/classifier/internal/rules/buckets.go: the tables from failure codes to root causes.
use momotaro.Prelude.{
  ℕ, ◌-◌, Bool, true, false, ◌&&◌, ◌||◌, Option, none, some, List, [], ◌∷◌, String, leb, ◌==◌, map,
  if◌then◌else◌,
}
use momotaro.Prelude.Text.{Bytes, codes, same, contains_text}
use momotaro.Proto.{RecordType, RootCauseBucket}

-- `unicode.IsSpace` on ASCII.
abbrev is_space : ℕ → Bool
is_space c = (leb 9 c && leb c 13) || c == 32

drop_spaces : Bytes → Bytes
drop_spaces [] = []
drop_spaces (c ∷ s) = let rest = drop_spaces s in if is_space c then rest else c ∷ s

-- `strings.TrimSpace` on the right: what follows the last byte that is no space goes.
drop_last_spaces : Bytes → Bytes
drop_last_spaces [] = []
drop_last_spaces (c ∷ s) = elim (drop_last_spaces s) [
  | [] ↦ if is_space c then [] else c ∷ []
  | d ∷ r ↦ c ∷ d ∷ r
]

abbrev upper : ℕ → ℕ
upper c = if leb b'a' c && leb c b'z' then c - 32 else c

abbrev underscored : ℕ → ℕ
underscored c = if c == b'-' || c == b' ' then b'_' else c

unfoldable pub normalize_failure_code : Bytes → Bytes
unfolding drop_spaces drop_last_spaces
normalize_failure_code raw = map underscored (map upper (drop_last_spaces (drop_spaces raw)))

-- A key of a Go map literal.
unfoldable pub find_code {ℓ} : {A : Type ℓ} → Bytes → List (String × A) → Option A
find_code code [] = none
find_code code ((key, a) ∷ rest) = elim (same (codes key) code) [
  | true ↦ some a
  | false ↦ find_code code rest
]

-- `failureCodeToBucket`.
abbrev pub failure_code_to_bucket : List (String × RootCauseBucket)
failure_code_to_bucket =
    ("BANK_TIMEOUT", RootCauseBucket.transient_bank)
    ∷ ("RAIL_CONGESTION", RootCauseBucket.transient_bank)
    ∷ ("ISSUER_UNAVAILABLE", RootCauseBucket.transient_bank)
    ∷ ("BANK_NOT_AVAILABLE", RootCauseBucket.transient_bank)
    ∷ ("BANK_TECHNICAL_ERROR", RootCauseBucket.transient_bank)
    ∷ ("ISSUER_TECHNICAL_ERROR", RootCauseBucket.transient_bank)
    ∷ ("GATEWAY_TECHNICAL_ERROR", RootCauseBucket.transient_bank)
    ∷ ("PAYMENT_DECLINED_DUE_TO_HIGH_TRAFFIC", RootCauseBucket.transient_bank)
    ∷ ("PSP_NOT_AVAILABLE", RootCauseBucket.transient_bank)
    ∷ ("UPI_APP_TECHNICAL_ERROR", RootCauseBucket.transient_bank)
    ∷ ("INSUFFICIENT_FUNDS", RootCauseBucket.insufficient_funds)
    ∷ ("LOW_BALANCE", RootCauseBucket.insufficient_funds)
    ∷ ("TRANSACTION_LIMIT_EXCEEDED", RootCauseBucket.insufficient_funds)
    ∷ ("TRANSACTION_DAILY_LIMIT_EXCEEDED", RootCauseBucket.insufficient_funds)
    ∷ ("CREDIT_LIMIT_EXCEEDED", RootCauseBucket.insufficient_funds)
    ∷ ("HARD_DECLINE", RootCauseBucket.hard_decline)
    ∷ ("EXPIRED_INSTRUMENT", RootCauseBucket.hard_decline)
    ∷ ("EXPIRED_CARD", RootCauseBucket.hard_decline)
    ∷ ("BLOCKED_INSTRUMENT", RootCauseBucket.hard_decline)
    ∷ ("INVALID_INSTRUMENT", RootCauseBucket.hard_decline)
    ∷ ("CARD_INVALID", RootCauseBucket.hard_decline)
    ∷ ("DO_NOT_HONOUR", RootCauseBucket.hard_decline)
    ∷ ("CARD_EXPIRED", RootCauseBucket.hard_decline)
    ∷ ("CARD_DECLINED", RootCauseBucket.hard_decline)
    ∷ ("DEBIT_INSTRUMENT_BLOCKED", RootCauseBucket.hard_decline)
    ∷ ("CARD_NUMBER_INVALID", RootCauseBucket.hard_decline)
    ∷ ("BANK_ACCOUNT_INVALID", RootCauseBucket.hard_decline)
    ∷ ("INVALID_VPA", RootCauseBucket.hard_decline)
    ∷ ("RISK_HOLD", RootCauseBucket.risk_hold)
    ∷ ("FRAUD_REVIEW", RootCauseBucket.risk_hold)
    ∷ ("SUSPECTED_FRAUD", RootCauseBucket.risk_hold)
    ∷ ("PAYMENT_RISK_CHECK_FAILED", RootCauseBucket.risk_hold)
    ∷ ("AUTH_REQUIRED", RootCauseBucket.user_action_needed)
    ∷ ("REAUTH_REQUIRED", RootCauseBucket.user_action_needed)
    ∷ ("MANDATE_REVOKED", RootCauseBucket.user_action_needed)
    ∷ ("MANDATE_PAUSED", RootCauseBucket.user_action_needed)
    ∷ ("USER_ACTION_NEEDED", RootCauseBucket.user_action_needed)
    ∷ ("AUTHENTICATION_FAILED", RootCauseBucket.user_action_needed)
    ∷ ("INCORRECT_OTP", RootCauseBucket.user_action_needed)
    ∷ ("OTP_EXPIRED", RootCauseBucket.user_action_needed)
    ∷ ("OTP_ATTEMPTS_EXCEEDED", RootCauseBucket.user_action_needed)
    ∷ ("MANDATE_CREATION_FAILED", RootCauseBucket.user_action_needed)
    ∷ ("MANDATE_CREATION_DECLINED", RootCauseBucket.user_action_needed)
    ∷ ("REQAUTH_MANDATE_NOT_ACKNOWLEDGED", RootCauseBucket.user_action_needed)
    ∷ ("CHECKOUT_ABANDONED", RootCauseBucket.abandonment)
    ∷ ("ABANDONED", RootCauseBucket.abandonment)
    ∷ ("ABANDONMENT", RootCauseBucket.abandonment)
    ∷ ("PAYMENT_CANCELLED", RootCauseBucket.abandonment)
    ∷ ("PAYMENT_SESSION_EXPIRED", RootCauseBucket.abandonment)
    ∷ ("INVOICE_OVERDUE", RootCauseBucket.overdue)
    ∷ ("OVERDUE", RootCauseBucket.overdue)
    ∷ ("PAST_DUE", RootCauseBucket.overdue)
    ∷ ("GATEWAY_TIMEOUT", RootCauseBucket.risk_hold)
    ∷ ("TIMEOUT", RootCauseBucket.risk_hold)
    ∷ ("PAYMENT_TIMED_OUT", RootCauseBucket.risk_hold)
    ∷ ("PAYMENT_PENDING", RootCauseBucket.risk_hold)
    ∷ ("VERIFICATION_FAILED", RootCauseBucket.risk_hold)
    ∷ ("INVALID_RESPONSE_FROM_GATEWAY", RootCauseBucket.risk_hold)
    ∷ []

-- `indeterminateCodes`.
abbrev pub indeterminate_codes : List (String × Bool)
indeterminate_codes =
    ("GATEWAY_TIMEOUT", true)
    ∷ ("TIMEOUT", true)
    ∷ ("PAYMENT_TIMED_OUT", true)
    ∷ ("PAYMENT_PENDING", true)
    ∷ ("VERIFICATION_FAILED", true)
    ∷ ("INVALID_RESPONSE_FROM_GATEWAY", true)
    ∷ []

-- `taxonomySourceIndicatesSystemicFailure`.
abbrev pub systemic_sources : List (String × Bool)
systemic_sources =
    ("BANK", true)
    ∷ ("GATEWAY", true)
    ∷ ("RAZORPAY", true)
    ∷ ("NETWORK", true)
    ∷ ("ISSUER", true)
    ∷ []

-- A map to `bool` gives `false` for a key it lacks.
abbrev pub or_false : Option Bool → Bool
or_false none = false
or_false (some b) = b

unfoldable pub is_indeterminate : Bytes → Bool
unfolding find_code
is_indeterminate normalized = or_false (find_code normalized indeterminate_codes)

unfoldable pub bucket_for_code : Bytes → Option RootCauseBucket
unfolding find_code
bucket_for_code normalized = find_code normalized failure_code_to_bucket

unfoldable pub is_systemic : Bytes → Bool
unfolding find_code
is_systemic source = or_false (find_code source systemic_sources)

-- `bucketForErrorTaxonomy`.
unfoldable pub bucket_for_error_taxonomy : Bytes → Bytes → Option RootCauseBucket
unfolding is_systemic
bucket_for_error_taxonomy source step =
    let src = normalize_failure_code source in
    let stp = normalize_failure_code step in
    if contains_text (codes "AUTHENTICATION") stp
    then some RootCauseBucket.user_action_needed
    else if contains_text (codes "AUTHORIZATION") stp && is_systemic src
    then some RootCauseBucket.transient_bank
    else if same src (codes "CUSTOMER")
    then some RootCauseBucket.user_action_needed
    else if is_systemic src
    then some RootCauseBucket.transient_bank
    else none

-- `fallbackBucket`.
unfoldable pub fallback_bucket : RecordType → RootCauseBucket
fallback_bucket RecordType.checkout = RootCauseBucket.abandonment
fallback_bucket RecordType.invoice = RootCauseBucket.overdue
fallback_bucket _ = RootCauseBucket.unspecified
