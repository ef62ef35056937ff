-- ===== src/Decision/Routing/Outcomes.antt =====
-- Where `score_and_route` can send a record (state.go).
use momotaro.Prelude.{
  ◌≡◌, ◌≢◌, refl, ◌⊎◌, inl, inr, true, false, Option, none, some, List, [], ◌∷◌, All, Bool-cases,
}
use momotaro.Prelude.Int.{ℤ}
use momotaro.Platform.Float.{Float}
use momotaro.Platform.Time.{Time}
use momotaro.Proto.{ActionType, RootCauseBucket, RecordState}
use momotaro.Audit.{is_allowed_transition}
use momotaro.Audit.Trails.{IsAllowed}
use momotaro.Decision.Economics.{Model, Score, score_all, best_of}
use momotaro.Decision.Economics.Member.{best_of-Holds, score_all-All}
use momotaro.Decision.Guardrails.{GuardrailConfig, GuardrailVerdict, AttemptHistory, DowntimeStatus}
use momotaro.Decision.Guardrails.Limits.{Spends}
use momotaro.Decision.Routing.{
  Routing, is_nudge, score_actions, candidates_for, is_empty, full_verdict, priced, routed,
  score_and_route, decide_for_action, refused,
}
use momotaro.Decision.Routing.Limits.{candidates-All, score_actions-Spends}

module _ {F : Type 0} where
  -- The four ends of the economics gate, by the actions that the guardrails left to score.
  abbrev pub Ends : List ActionType → Routing F → Type 0
  Ends acts r =
      ((acts ≢ [])
        × (((r.state ≡ RecordState.retry_scheduled) × (r.pending_action ≡ ActionType.retry))
            ⊎ (((r.state ≡ RecordState.nudge_scheduled) × (is_nudge r.pending_action ≡ true))
                ⊎ ((r.state ≡ RecordState.closed_uneconomic)
                    × (r.pending_action ≡ ActionType.unspecified)))))
      ⊎ ((acts ≡ [])
          × (r.state ≡ RecordState.escalated)
          × (r.pending_action ≡ ActionType.unspecified))

  pub Ends-IsAllowed :
      (acts : List ActionType) (r : Routing F) → Ends acts r → IsAllowed RecordState.scoring r.state
  unfolding is_allowed_transition
  Ends-IsAllowed acts r (inl (ne, inl (e, p))) = rw e refl
  Ends-IsAllowed acts r (inl (ne, inr (inl (e, p)))) = rw e refl
  Ends-IsAllowed acts r (inl (ne, inr (inr (e, p)))) = rw e refl
  Ends-IsAllowed acts r (inr (ne, e, p)) = rw e refl

empty-is_empty : {A : Type 0} → (xs : List A) → is_empty xs ≡ true → xs ≡ []
empty-is_empty [] e = refl
empty-is_empty (x ∷ xs) e = cc

nonempty-is_empty : {A : Type 0} → (xs : List A) → is_empty xs ≡ false → xs ≢ []
nonempty-is_empty [] e = cc
nonempty-is_empty (x ∷ xs) e = λ h. cc

module _ {F : Type 0} ⦃fl : Float F⦄ where
  spends-Ends :
      (acts : List ActionType) (r : Routing F) (a : ActionType)
      → acts ≢ []
      → Spends a
      → r.state ≡ (decide_for_action {F = F} a).0
      → r.pending_action ≡ (decide_for_action {F = F} a).1
      → Ends acts r
  unfolding decide_for_action
  spends-Ends acts r ActionType.retry ne s e p = inl (ne, inl (e, p))
  spends-Ends acts r ActionType.nudge_method_update ne s e p = inl (ne, inr (inl (e, rw p refl)))
  spends-Ends acts r ActionType.nudge_reminder ne s e p = inl (ne, inr (inl (e, rw p refl)))
  spends-Ends acts r _ ne s e p = absurd s

  routed-Ends :
      (acts : List ActionType) (v : GuardrailVerdict) (scores : List (Score F)) (amount : ℤ)
      (found : Option (Score F))
      → best_of scores ≡ found
      → acts ≢ []
      → All (λ s. Spends s.action) scores
      → Ends acts (routed v scores amount found)
  unfolding routed
  routed-Ends acts v scores amount none e ne all = inl (ne, inr (inr (refl, refl)))
  routed-Ends acts v scores amount (some b) e ne all =
      let (spends, positive) = best_of-Holds (λ s. Spends s.action) scores all e in
      spends-Ends acts (routed v scores amount (some b)) b.action ne spends refl refl

module _ (F : Type 0) ⦃fl : Float F⦄ where
  -- The gate ends in one of four ways. If the guardrails leave no action to price, the record is
  -- escalated with nothing pending. Otherwise it is a scheduled retry with a retry pending, or a
  -- scheduled nudge with a nudge pending, or closed as uneconomic with nothing pending.
  pub score_and_route-Ends :
      (m : Model) (cfg : GuardrailConfig) (bucket : RootCauseBucket) (h : AttemptHistory)
      (d : DowntimeStatus) (amount : ℤ) (now : Time)
      → Ends
          (score_actions (full_verdict cfg h d now))
          (score_and_route {F = F} m cfg bucket h d amount now)
  unfolding score_and_route priced refused
  score_and_route-Ends m cfg bucket h d amount now =
      let v = full_verdict cfg h d now in
      let acts = score_actions v in
      let scores = score_all {F = F} m (candidates_for h acts) bucket amount in
      elim (Bool-cases (is_empty acts)) [
        | inl nothing ↦ rw nothing (inr (empty-is_empty acts nothing, refl, refl))
        | inr something ↦ rw something (
            routed-Ends acts v scores amount (best_of scores) refl
              (nonempty-is_empty acts something)
              (score_all-All F Spends m (candidates_for h acts) bucket amount
                (candidates-All Spends h acts (score_actions-Spends cfg h d now))))
      ]
