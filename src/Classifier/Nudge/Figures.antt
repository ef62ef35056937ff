-- ===== src/Classifier/Nudge/Figures.antt =====
-- Which digits a customer sees: the check of services/classifier/internal/provider/validate_nudge.go and
-- the substitution of services/classifier/internal/server/server.go together.
use mathlib.Core.List.{append-nil}
use momotaro.Prelude.{
  ℕ, zero, suc, ◌-◌, ◌≤◌, ◌≡◌, refl, ap, ◌∙◌, true, false, [], ◌∷◌, ◌++◌, ◌⊎◌, inl, inr, length,
  arith, if◌then◌else◌, Option-cases,
}
use momotaro.Prelude.Int.{ℤ}
use momotaro.Prelude.Text.{Bytes, strip_prefix}
use momotaro.Classifier.{ComposeNudgeResponse}
use momotaro.Classifier.Nudge.{
  amount_placeholder, is_clean, validate_nudge, count_from, replace_from, replace_all,
  contains_digit, is_digit,
}

-- The digits of a text, in order.
abbrev pub digits : Bytes → Bytes
digits [] = []
digits (c ∷ s) = if is_digit c then c ∷ digits s else digits s

digits-append : (s t : Bytes) → digits (s ++ t) ≡ digits s ++ digits t
digits-append [] t = refl
digits-append (c ∷ s) t = ground (arith, digits-append s t)

abbrev times : ℕ → Bytes → Bytes
times zero r = []
times (suc n) r = r ++ times n r

no_digit :
    (c : ℕ) (s : Bytes)
    → contains_digit (c ∷ s) ≡ false
    → (is_digit c ≡ false) × (contains_digit s ≡ false)
unfolding contains_digit
no_digit c s h = ground arith

digits-replace :
    (p r : Bytes) (skip : ℕ) (s : Bytes)
    → contains_digit (replace_from p [] skip s) ≡ false
    → digits (replace_from p r skip s) ≡ times (count_from p skip s) (digits r)
unfolding replace_from count_from contains_digit
digits-replace p r skip [] h = refl
digits-replace p r (suc skip) (c ∷ s) h = digits-replace p r skip s h
digits-replace p r zero (c ∷ s) h = elim (Option-cases (strip_prefix p (c ∷ s))) [
  | inr (rest, e) ↦
      rw (e, replace_from, count_from)
        (digits-append r _
          ∙ ap (λ t. digits r ++ t)
              (digits-replace p r (length p - 1) s (rw (e, replace_from) at h)))
  | inl e ↦
      let (plain, rest) = no_digit c (replace_from p [] zero s) (rw (e, replace_from) at h) in
      rw (e, replace_from, count_from) (rw plain (digits-replace p r zero s rest))
]

accepted :
    (max_chars : ℤ) (resp : ComposeNudgeResponse)
    → validate_nudge max_chars resp ≡ true
    → (count_from amount_placeholder zero resp.message ≤ 1)
      × (contains_digit (replace_all amount_placeholder [] resp.message) ≡ false)
unfolding validate_nudge is_clean
accepted max_chars resp v = ground arith

at_most_once : (n : ℕ) (r : Bytes) → n ≤ 1 → (times n r ≡ []) ⊎ (times n r ≡ r)
at_most_once zero r h = inl refl
at_most_once (suc zero) r h = inr (append-nil r)
at_most_once (suc (suc n)) r h = absurd (omega arith)

-- In a message that the check accepts, whatever replaces the placeholder, the digits that are shown are
-- none or those of the replacement, once: no figure of the model's reaches the customer.
pub shown_digits :
    (max_chars : ℤ) (resp : ComposeNudgeResponse) (amount : Bytes)
    → validate_nudge max_chars resp ≡ true
    → (digits (replace_all amount_placeholder amount resp.message) ≡ [])
      ⊎ (digits (replace_all amount_placeholder amount resp.message) ≡ digits amount)
shown_digits max_chars resp amount v =
    let (once, plain) = accepted max_chars resp v in
    let e = digits-replace amount_placeholder amount zero resp.message plain in
    elim (at_most_once (count_from amount_placeholder zero resp.message) (digits amount) once) [
      | inl n ↦ inl (e ∙ n)
      | inr n ↦ inr (e ∙ n)
    ]
