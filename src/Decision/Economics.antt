-- ===== src/Decision/Economics.antt =====
-- services/decision-engine/internal/economics/score.go: the expected value of an action, and the
-- choice of the best one. The two tables that config.go loads are functions from their keys, `none`
-- where a key is missing; `float64` is the interface of Platform/Float.
pub mod Choice
pub mod Member
use momotaro.Prelude.{
  ℕ, suc, ◌==◌, Bool, true, false, not, ◌||◌, Option, none, some, List, [], ◌∷◌, map, if◌then◌else◌,
}
use momotaro.Prelude.Int.{ℤ, pos, ◌+ℤ◌, wrap64}
use momotaro.Platform.Float.{Float}
use momotaro.Proto.{ActionType, RootCauseBucket}

pub record ActionCost : Type 0 where
  pub direct_paise : ℤ
  pub indirect_paise : ℤ

pub record AttemptPriors : Type 0 where
  pub attempt1 : Option ℤ
  pub attempt2 : Option ℤ
  pub attempt3 : Option ℤ
  pub all_attempts : Option ℤ

pub record Model : Type 0 where
  pub costs : ActionType → Option ActionCost
  pub priors : ActionType → RootCauseBucket → Option AttemptPriors
  pub beyond_listed_attempts_bps : ℤ

pub record Score (F : Type 0) : Type 0 where
  pub action : ActionType
  pub lift_bps : ℤ
  pub p_recovery : F
  pub ev_paise : F
  pub cost_paise : ℤ

pub record Candidate : Type 0 where
  pub action : ActionType
  pub attempt_no : ℕ

abbrev or_beyond : Model → Option ℤ → ℤ
or_beyond m none = m.beyond_listed_attempts_bps
or_beyond m (some v) = v

-- The `switch` on the attempt number.
unfoldable pub attempt_value : AttemptPriors → ℕ → Option ℤ
attempt_value row n =
    if n == 1
    then row.attempt1
    else if n == 2
    then row.attempt2
    else if n == 3
    then row.attempt3
    else none

abbrev row_bps : Model → AttemptPriors → ℕ → ℤ
unfolding attempt_value
row_bps m row n = elim row.all_attempts [ some v ↦ v | none ↦ or_beyond m (attempt_value row n) ]

unfoldable pub lift_bps : Model → ActionType → RootCauseBucket → ℕ → ℤ
unfolding attempt_value
lift_bps m action bucket n = elim (m.priors action bucket) [
  | none ↦ m.beyond_listed_attempts_bps
  | some row ↦ row_bps m row n
]

unfoldable pub cost_of : Model → ActionType → ActionCost
cost_of m action = elim (m.costs action) [
  | none ↦ record { direct_paise = pos 0; indirect_paise = pos 0 }
  | some c ↦ c
]

module _ {F : Type 0} ⦃fl : Float F⦄ where
  open fl use {of_int, sub, mul, div, le, lt}

  abbrev pub zero_score : Score F
  zero_score = record {
    action = ActionType.unspecified;
    lift_bps = pos 0;
    p_recovery = of_int (pos 0);
    ev_paise = of_int (pos 0);
    cost_paise = pos 0;
  }

  unfoldable pub score : Model → ActionType → RootCauseBucket → ℕ → ℤ → Score F
  unfolding lift_bps cost_of
  score m action bucket n amount_paise =
      let lift = lift_bps m action bucket n in
      let cost = cost_of m action in
      let total = wrap64 (cost.direct_paise +ℤ cost.indirect_paise) in
      let p = div (of_int lift) (of_int (pos 10000)) in
      record {
        action = action;
        lift_bps = lift;
        p_recovery = p;
        ev_paise = sub (mul p (of_int amount_paise)) (of_int total);
        cost_paise = total;
      }

  unfoldable pub score_all : Model → List Candidate → RootCauseBucket → ℤ → List (Score F)
  score_all m [] bucket amount_paise = []
  score_all m (c ∷ cs) bucket amount_paise =
      score m c.action bucket c.attempt_no amount_paise ∷ score_all m cs bucket amount_paise

  abbrev better : Option (Score F) → Score F → Bool
  better none s = true
  better (some b) s = lt b.ev_paise s.ev_paise

  -- One round of the loop; `none` is `found == false`.
  unfoldable pub keep_better : Option (Score F) → Score F → Option (Score F)
  keep_better best s =
      if le s.ev_paise (of_int (pos 0)) then best else if better best s then some s else best

  best_from : Option (Score F) → List (Score F) → Option (Score F)
  best_from best [] = best
  best_from best (s ∷ ss) = best_from (keep_better best s) ss

  unfoldable pub best_of : List (Score F) → Option (Score F)
  unfolding best_from keep_better
  best_of ss = best_from none ss

  unfoldable pub best : Model → List Candidate → RootCauseBucket → ℤ → Option (Score F)
  best m permitted bucket amount_paise = best_of (score_all m permitted bucket amount_paise)
