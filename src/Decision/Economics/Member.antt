-- ===== src/Decision/Economics/Member.antt =====
-- What `best_of` finds is one of the scores it was given, and its value is not `<= 0` (score.go).
use momotaro.Prelude.{◌≡◌, inl, inr, false, Option, none, some, List, [], ◌∷◌, All, Bool-cases}
use momotaro.Prelude.Int.{pos}
use momotaro.Platform.Float.{Float}
use momotaro.Decision.Economics.{
  Model, Score, Candidate, keep_better, better, best_from, best_of, score, score_all,
}
use momotaro.Proto.{ActionType, RootCauseBucket}
use momotaro.Prelude.Int.{ℤ}

module _ {F : Type 0} ⦃fl : Float F⦄ where
  abbrev pub IsPositive : Score F → Type 0
  IsPositive s = fl.le s.ev_paise (fl.of_int (pos 0)) ≡ false

  -- The candidate so far, if there is one, satisfies `P` and is positive.
  abbrev Holds : (Score F → Type 0) → Option (Score F) → Type 0
  Holds P none = Unit
  Holds P (some b) = P b × IsPositive b

  keep_better-Holds :
      (P : Score F → Type 0) (best : Option (Score F)) (s : Score F)
      → Holds P best
      → P s
      → Holds P (keep_better best s)
  unfolding keep_better
  keep_better-Holds P best s h p = elim (Bool-cases (fl.le s.ev_paise (fl.of_int (pos 0)))) [
    | inl low ↦ rw low h
    | inr high ↦ elim (Bool-cases (better best s)) [
      | inl up ↦ rw (high, up) (p, high)
      | inr flat ↦ rw (high, flat) h
    ]
  ]

  best_from-Holds :
      (P : Score F → Type 0) (best : Option (Score F)) (ss : List (Score F))
      → Holds P best
      → All P ss
      → Holds P (best_from best ss)
  unfolding best_from
  best_from-Holds P best [] h a = h
  best_from-Holds P best (s ∷ ss) h (p, ps) =
      best_from-Holds P (keep_better best s) ss (keep_better-Holds P best s h p) ps

  pub best_of-Holds :
      (P : Score F → Type 0) (ss : List (Score F)) {b : Score F}
      → All P ss
      → best_of ss ≡ some b
      → P b × IsPositive b
  unfolding best_of
  best_of-Holds P ss a e = rw e at (best_from-Holds P none ss tt a)

module _ (F : Type 0) ⦃fl : Float F⦄ where
  -- Every score of a ranking is the score of one of the candidates, under its own action.
  pub score_all-All :
      (Q : ActionType → Type 0) (m : Model) (cs : List Candidate) (bucket : RootCauseBucket)
      (amount : ℤ)
      → All (λ c. Q c.action) cs
      → All (λ (s : Score F). Q s.action) (score_all m cs bucket amount)
  unfolding score_all score
  score_all-All Q m [] bucket amount a = tt
  score_all-All Q m (c ∷ cs) bucket amount (p, ps) = (p, score_all-All Q m cs bucket amount ps)
