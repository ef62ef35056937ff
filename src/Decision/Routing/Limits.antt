-- ===== src/Decision/Routing/Limits.antt =====
-- No route out of the economics gate spends around a guardrail (state.go and guardrails.go).
use momotaro.Prelude.{
  ◌≡◌, ◌≢◌, refl, ◌⊎◌, inl, inr, true, false, Option, none, some, List, [], ◌∷◌, All, All-append,
  arith, Bool-cases,
}
use momotaro.Prelude.Int.{ℤ}
use momotaro.Platform.Float.{Float}
use momotaro.Platform.Time.{Time}
use momotaro.Proto.{ActionType, RootCauseBucket}
use momotaro.Decision.Economics.{Model, Score, Candidate, score_all, best_of}
use momotaro.Decision.Economics.Member.{IsPositive, best_of-Holds, score_all-All}
use momotaro.Decision.Guardrails.{
  GuardrailConfig, GuardrailVerdict, AttemptHistory, DowntimeStatus, apply_guardrails, allows,
  apply_downtime_guardrail, permitted_actions, validate,
}
use momotaro.Decision.Guardrails.Limits.{
  InWindow, WithinLimits, Representable, Spends, allows-apply_guardrails,
}
use momotaro.Decision.Guardrails.Outage.{downtime_holds_only_retry}
use momotaro.Decision.Routing.{
  Routing, score_actions, candidates_for, is_empty, full_verdict, priced, routed, score_and_route,
  decide_for_action, refused,
}

-- A spending action that the permanent guardrails allow.
abbrev pub Payable : GuardrailVerdict → ActionType → Type 0
Payable v a = Spends a × (allows v a ≡ true)

permitted-Payable :
    (v w : GuardrailVerdict)
    → ((a : ActionType) → Spends a → allows w a ≡ true → allows v a ≡ true)
    → All (Payable v) (permitted_actions w)
unfolding permitted_actions
permitted-Payable v w k =
    ground
      (arith, k ActionType.retry, k ActionType.nudge_method_update, k ActionType.nudge_reminder)

narrower :
    (v : GuardrailVerdict) (d : DowntimeStatus) (now : Time)
    → v.retry_held_by_downtime ≡ false
    → (a : ActionType) → Spends a
    → allows (apply_downtime_guardrail v d now) a ≡ true
    → allows v a ≡ true
narrower v d now h ActionType.retry s e = ((downtime_holds_only_retry v d now h).1.0 e).0
narrower v d now h ActionType.nudge_method_update s e =
    cc ((downtime_holds_only_retry v d now h).0 ActionType.nudge_method_update (λ p. cc))
narrower v d now h ActionType.nudge_reminder s e =
    cc ((downtime_holds_only_retry v d now h).0 ActionType.nudge_reminder (λ p. cc))
narrower v d now h _ s e = absurd s

score_actions-Payable :
    (cfg : GuardrailConfig) (h : AttemptHistory) (d : DowntimeStatus) (now : Time)
    → All (Payable (apply_guardrails h cfg now)) (score_actions (full_verdict cfg h d now))
unfolding score_actions
score_actions-Payable cfg h d now =
    let v = apply_guardrails h cfg now in
    let w = full_verdict cfg h d now in
    let unheld : v.retry_held_by_downtime ≡ false = unfold apply_guardrails in refl in
    let all = permitted-Payable v w (narrower v d now unheld) in
    elim (Bool-cases w.retry_held_by_downtime) [
      | inl held ↦ simp held (
          All-append (Payable v) (permitted_actions w) (ActionType.retry ∷ []) all
            ((tt, ((downtime_holds_only_retry v d now unheld).2.0 held).0), tt))
      | inr free ↦ simp free all
    ]

only-Spends : (v : GuardrailVerdict) (as' : List ActionType) → All (Payable v) as' → All Spends as'
only-Spends v [] a = tt
only-Spends v (x ∷ xs) (p, ps) = (p.0, only-Spends v xs ps)

pub score_actions-Spends :
    (cfg : GuardrailConfig) (h : AttemptHistory) (d : DowntimeStatus) (now : Time)
    → All Spends (score_actions (full_verdict cfg h d now))
score_actions-Spends cfg h d now =
    only-Spends (apply_guardrails h cfg now) (score_actions (full_verdict cfg h d now))
      (score_actions-Payable cfg h d now)

both-Spends :
    (v : GuardrailVerdict) (as' : List ActionType)
    → All (Payable v) as'
    → All (λ a. Payable v a × Spends a) as'
both-Spends v [] a = tt
both-Spends v (x ∷ xs) (p, ps) = ((p, p.0), both-Spends v xs ps)

pub candidates-All :
    (Q : ActionType → Type 0) (h : AttemptHistory) (as' : List ActionType)
    → All Q as'
    → All (λ (c : Candidate). Q c.action) (candidates_for h as')
candidates-All Q h [] a = tt
candidates-All Q h (x ∷ xs) (p, ps) = (p, candidates-All Q h xs ps)

spends-pending : (F : Type 0) (a : ActionType) → Spends a → (decide_for_action {F = F} a).1 ≡ a
unfolding decide_for_action
spends-pending F ActionType.retry s = refl
spends-pending F ActionType.nudge_method_update s = refl
spends-pending F ActionType.nudge_reminder s = refl
spends-pending F _ s = absurd s

module _ {F : Type 0} ⦃fl : Float F⦄ where
  -- What the gate schedules is the action of the winning score.
  abbrev Sound : (ActionType → Type 0) → Routing F → Type 0
  Sound Q r =
      (r.pending_action ≡ ActionType.unspecified)
      ⊎ (Q r.pending_action × (r.score.action ≡ r.pending_action) × IsPositive r.score)

  routed-Sound :
      (Q : ActionType → Type 0) (v : GuardrailVerdict) (ss : List (Score F)) (amount : ℤ)
      (found : Option (Score F))
      → best_of ss ≡ found
      → All (λ s. Q s.action × Spends s.action) ss
      → Sound Q (routed v ss amount found)
  unfolding routed
  routed-Sound Q v ss amount none e a = inl refl
  routed-Sound Q v ss amount (some b) e a =
      let (q, positive) = best_of-Holds (λ s. Q s.action × Spends s.action) ss a e in
      let same = spends-pending F b.action q.1 in inr (rw same q.0, rw same, positive)

module _ (F : Type 0) ⦃fl : Float F⦄ where
  score_and_route-Sound :
      (m : Model) (cfg : GuardrailConfig) (bucket : RootCauseBucket) (h : AttemptHistory)
      (d : DowntimeStatus) (amount : ℤ) (now : Time)
      → Sound
          (Payable (apply_guardrails h cfg now))
          (score_and_route {F = F} m cfg bucket h d amount now)
  unfolding score_and_route priced refused
  score_and_route-Sound m cfg bucket h d amount now =
      let v = full_verdict cfg h d now in
      let as' = score_actions v in
      let base = apply_guardrails h cfg now in
      let scores = score_all {F = F} m (candidates_for h as') bucket amount in
      elim (Bool-cases (is_empty as')) [
        | inl nothing ↦ rw nothing (inl refl)
        | inr something ↦ rw something (
            routed-Sound (Payable base) v scores amount (best_of scores) refl (
              score_all-All F (λ a. Payable base a × Spends a) m (candidates_for h as') bucket
                amount
                (candidates-All (λ a. Payable base a × Spends a) h as'
                  (both-Spends base as' (score_actions-Payable cfg h d now)))))
      ]

  -- Whatever the gate schedules is a spending action that, under a valid configuration, is inside
  -- the recovery window and its own budget and cooldown at that moment, downtime or not; and its
  -- winning score is its own and has a positive expected value.
  pub scheduled-WithinLimits :
      (m : Model) (cfg : GuardrailConfig) (bucket : RootCauseBucket) (h : AttemptHistory)
      (d : DowntimeStatus) (amount : ℤ) (now : Time)
      → validate cfg ≡ none
      → Representable cfg
      → let r : Routing F = score_and_route m cfg bucket h d amount now in
        r.pending_action ≢ ActionType.unspecified
        → Spends r.pending_action
          × InWindow h cfg now
          × WithinLimits r.pending_action h cfg now
          × (r.score.action ≡ r.pending_action)
          × IsPositive r.score
  scheduled-WithinLimits m cfg bucket h d amount now v rep ne =
      let r : Routing F = score_and_route m cfg bucket h d amount now in
      elim (score_and_route-Sound m cfg bucket h d amount now) [
        | inl idle ↦ absurd (ne idle)
        | inr ((s, ok), same, positive) ↦
            let limits = (allows-apply_guardrails r.pending_action h cfg now s v rep).0 ok in
            (s, limits.0, limits.1, same, positive)
      ]
