-- ===== src/Platform/Commits/Kept.antt =====
-- What fetching and completing keep of the tracker of internal/platform/kafkax/keyed.go.
use mathlib.Core.Path.{subst}
use momotaro.Prelude.{
  ℕ, ◌≤◌, ◌==◌, ◌≡◌, refl, ap, sym, ◌∙◌, Bool, true, Option, none, some, List, [], ◌∷◌, arith,
  ==_iff, Bool-cases, Option-cases, inl, inr, if◌then◌else◌, All,
}
use momotaro.Platform.Commits.{
  KafkaRecord, Progress, Tracker, find_offset, store, observe, complete_in, Committer,
  committer_round,
}
use momotaro.Platform.Commits.Own.{Own, complete_in-Own}
use momotaro.Platform.Commits.Gap.{has, IsFirstGap, IsTracked, complete_in-IsTracked}

-- The committer with what has happened so far: the first offset fetched of each partition, and the
-- offsets whose records were handled.
pub record Consumption : Type 0 where
  pub committer : Committer
  pub first : ℕ → Option ℕ
  pub done : ℕ → List ℕ

abbrev pub first_of : ℕ → Option ℕ → Option ℕ
first_of o none = some o
first_of o (some f) = some f

abbrev pub first_fetched : KafkaRecord → (ℕ → Option ℕ) → ℕ → Option ℕ
first_fetched r first p = if p == r.partition then first_of r.offset (first p) else first p

abbrev pub handled : KafkaRecord → (ℕ → List ℕ) → ℕ → List ℕ
handled r done p = if p == r.partition then r.offset ∷ done p else done p

-- A record is fetched, or one that was handled reaches the committer, in any order.
pub data ConsumptionStep (commit : KafkaRecord → Bool) : Consumption → Consumption → Type 0 where
  fetch :
      {s : Consumption} (r : KafkaRecord)
      → ConsumptionStep commit s (record s {
        committer = record s.committer { tracker = observe r s.committer.tracker };
        first = first_fetched r s.first;
      })
  finish :
      {s : Consumption} (r : KafkaRecord) (c : Committer)
      → committer_round commit r s.committer ≡ some c
      → ConsumptionStep commit s (record s { committer = c; done = handled r s.done })

pub data Consumed (commit : KafkaRecord → Bool) (s : Consumption) : Consumption → Type 0 where
  start : Consumed commit s s
  next :
      {u v : Consumption} → Consumed commit s u → ConsumptionStep commit u v → Consumed commit s v

-- A commit covers only handled records of its partition, from the first one fetched.
pub record Covers (first : ℕ → Option ℕ) (done : ℕ → List ℕ) (c : KafkaRecord) : Type 0 where
  pub origin : ℕ
  pub fetched : first c.partition ≡ some origin
  pub covered : (o : ℕ) → origin ≤ o → o ≤ c.offset → has o (done c.partition) ≡ true

-- What the tracker knows of a partition agrees with what happened to it.
abbrev pub Agrees : ℕ → Option Progress → Option ℕ → List ℕ → Type 0
Agrees p none none done = done ≡ []
Agrees p (some g) (some f) done = IsTracked f done g × Own p g.completed
Agrees p _ _ done = ⊥

pub record IsConsistent (s : Consumption) : Type 0 where
  pub agrees : (p : ℕ) → Agrees p (s.committer.tracker p) (s.first p) (s.done p)
  pub covers : All (Covers s.first s.done) s.committer.commits

abbrev pub observed : ℕ → Option Progress → Option Progress
observed o none = some (record { next = o; completed = [] })
observed o (some g) = some g

pub observe_lookup :
    (r : KafkaRecord) (t : Tracker) (p : ℕ)
    → observe r t p ≡ (if p == r.partition then observed r.offset (t p) else t p)
unfolding observe
observe_lookup r t p = elim (Option-cases (t r.partition)) [
  | inl n ↦ elim (Bool-cases (p == r.partition)) [
    | inl e ↦ rw (n, e, ap t ((==_iff p r.partition).0 e) ∙ n, observe) refl
    | inr e ↦ rw (n, e, observe) refl
  ]
  | inr (g, n) ↦ elim (Bool-cases (p == r.partition)) [
    | inl e ↦ rw (n, e, ap t ((==_iff p r.partition).0 e) ∙ n, observe) refl
    | inr e ↦ rw (n, e, observe) refl
  ]
]

pub fresh-IsTracked :
    (p o : ℕ) (done : List ℕ)
    → done ≡ []
    → Agrees p (some (record { next = o; completed = [] })) (some o) done
unfolding has find_offset
fresh-IsTracked p o done e = (
  record {
    spec = record {
      reached = omega arith;
      before = λ x l h. absurd (omega arith);
      gap = ground (arith, ap (has o) e);
    };
    kept = λ x. ground (arith, ap (has x) e);
  },
  tt,
)

pub observed-Agrees :
    (p o : ℕ) (g : Option Progress) (f : Option ℕ) (done : List ℕ)
    → Agrees p g f done
    → Agrees p (observed o g) (first_of o f) done
observed-Agrees p o none none done a = fresh-IsTracked p o done a
observed-Agrees p o none (some f) done a = absurd a
observed-Agrees p o (some g) none done a = absurd a
observed-Agrees p o (some g) (some f) done a = a

pub fetch-Agrees :
    (r : KafkaRecord) (t : Tracker) (first : ℕ → Option ℕ) (done : ℕ → List ℕ) (p : ℕ)
    → Agrees p (t p) (first p) (done p)
    → Agrees p (observe r t p) (first_fetched r first p) (done p)
fetch-Agrees r t first done p a = elim (Bool-cases (p == r.partition)) [
  | inl e ↦ rw (observe_lookup r t p) (rw e (observed-Agrees p r.offset (t p) (first p) (done p) a))
  | inr e ↦ rw (observe_lookup r t p) (rw e a)
]

-- A partition whose record is completed was fetched.
pub some-Agrees :
    (p : ℕ) (g : Progress) (f : Option ℕ) (done : List ℕ)
    → Agrees p (some g) f done
    → (o : ℕ) × (f ≡ some o) × IsTracked o done g × Own p g.completed
some-Agrees p g none done a = absurd a
some-Agrees p g (some o) done (a, own) = (o, refl, a, own)

pub finish-Agrees :
    (r : KafkaRecord) (t : Tracker) (first : ℕ → Option ℕ) (done : ℕ → List ℕ) (g : Progress)
    (p : ℕ)
    → t r.partition ≡ some g
    → Agrees p (t p) (first p) (done p)
    → Agrees p (store r.partition (complete_in r g).1 t p) (first p) (handled r done p)
finish-Agrees r t first done g p n a = elim (Bool-cases (p == r.partition)) [
  | inr e ↦ rw e a
  | inl e ↦
      let same_p : p ≡ r.partition = (==_iff p r.partition).0 e in
      let (o, f, v, own) = some-Agrees p g (first p) (done p) (rw (ap t same_p ∙ n) at a) in
      rw (e, f) (complete_in-IsTracked o (done p) g r v, (complete_in-Own p r g (sym same_p) own).1)
]

-- What was covered stays covered.
pub grown-Covers :
    (r : KafkaRecord) (first : ℕ → Option ℕ) (done : ℕ → List ℕ) (c : KafkaRecord)
    → Covers first done c
    → Covers first (handled r done) c
unfolding has
grown-Covers r first done c v = record {
  origin = v.origin;
  fetched = v.fetched;
  covered = λ o l h. ground (arith, v.covered o l h);
}

pub fetched-Covers :
    (r : KafkaRecord) (first : ℕ → Option ℕ) (done : ℕ → List ℕ) (c : KafkaRecord)
    → Covers first done c
    → Covers (first_fetched r first) done c
fetched-Covers r first done c v = record {
  origin = v.origin;
  fetched = rw v.fetched (ground arith);
  covered = v.covered;
}

pub handled_self :
    (r : KafkaRecord) (done : ℕ → List ℕ) → handled r done r.partition ≡ r.offset ∷ done r.partition
handled_self r done = ground arith

pub known :
    (p : ℕ) (g : Option Progress) (f : Option ℕ) (done : List ℕ) (first : ℕ)
    → Agrees p g f done
    → f ≡ some first
    → (h : Progress) × (g ≡ some h) × IsFirstGap first done h.next
known p none none done first a e = cc
known p none (some f) done first a e = absurd a
known p (some g) none done first a e = absurd a
known p (some g) (some f) done first (a, _) e =
    (g, refl, subst (λ x. IsFirstGap x done g.next) (cc (e)) a.spec)
