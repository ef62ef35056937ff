-- ===== src/Platform/Commits/Consumption.antt =====
-- Records of all partitions that are fetched, handled in any order and committed as
-- internal/platform/kafkax/keyed.go does it.
use mathlib.Core.Path.{subst}
use momotaro.Prelude.{
  ℕ, ◌≡◌, refl, ap, sym, ◌∙◌, Bool, false, Option, none, some, List, [], arith, Bool-cases,
  Option-cases, inl, inr, All, All-map,
}
use momotaro.Platform.Commits.{
  KafkaRecord, Progress, Tracker, new_commit_tracker, store, complete_in, complete, Committer,
  commit_one, committer_round,
}
use momotaro.Platform.Commits.Own.{complete_in-Own}
use momotaro.Platform.Commits.Gap.{has, IsFirstGap, complete_in-IsTracked, complete_in-handed}
use momotaro.Platform.Commits.Kept.{
  Consumption, handled, ConsumptionStep, fetch, finish, Consumed, start, next, Covers, Agrees,
  IsConsistent, fetch-Agrees, some-Agrees, finish-Agrees, grown-Covers, fetched-Covers,
  handled_self, known,
}

-- The record that completing another hands out is covered.
handed-Covers :
    (r : KafkaRecord) (t : Tracker) (first : ℕ → Option ℕ) (done : ℕ → List ℕ) (g : Progress)
    (c : KafkaRecord)
    → t r.partition ≡ some g
    → Agrees r.partition (t r.partition) (first r.partition) (done r.partition)
    → (complete_in r g).0 ≡ some c
    → Covers first (handled r done) c
handed-Covers r t first done g c n a e =
    let (o, f, v, own) =
      some-Agrees r.partition g (first r.partition) (done r.partition) (rw n at a) in
    let same_p : c.partition ≡ r.partition = rw e at (complete_in-Own r.partition r g refl own).0 in
    let after = complete_in-IsTracked o (done r.partition) g r v in
    record {
      origin = o;
      fetched = ap first same_p ∙ f;
      covered = λ x l h.
          ap (has x) (ap (handled r done) same_p ∙ handled_self r done)
          ∙ after.spec.before x l (omega (arith, complete_in-handed g r c e));
    }

-- A round of the committer, taken apart.
round_inv :
    (commit : KafkaRecord → Bool) (r : KafkaRecord) (s c : Committer)
    → committer_round commit r s ≡ some c
    → (g : Progress) × (s.tracker r.partition ≡ some g)
      × (c
          ≡ commit_one commit s
              ((complete_in r g).0, store r.partition (complete_in r g).1 s.tracker))
unfolding committer_round complete
round_inv commit r s c e = elim (Option-cases (s.tracker r.partition)) [
  | inl n ↦ cc (rw (n, committer_round, complete) at e)
  | inr (g, n) ↦ (g, n, cc (rw (n, committer_round, complete) at e))
]

commit_one-Covers :
    (commit : KafkaRecord → Bool) (r : KafkaRecord) (first : ℕ → Option ℕ) (done : ℕ → List ℕ)
    (s : Committer) (handed : Option KafkaRecord) (t : Tracker)
    → All (Covers first (handled r done)) s.commits
    → ((c : KafkaRecord) → handed ≡ some c → Covers first (handled r done) c)
    → All (Covers first (handled r done)) (commit_one commit s (handed, t)).commits
unfolding commit_one
commit_one-Covers commit r first done s none t a h = a
commit_one-Covers commit r first done s (some c) t a h = elim (Bool-cases s.broken) [
  | inl b ↦ rw b a
  | inr b ↦ rw b (h c refl, a)
]

commit_one-tracker :
    (commit : KafkaRecord → Bool) (s : Committer) (handed : Option KafkaRecord) (t : Tracker)
    → (commit_one commit s (handed, t)).tracker ≡ t
unfolding commit_one
commit_one-tracker commit s none t = refl
commit_one-tracker commit s (some c) t = ground arith

step-IsConsistent :
    {commit : KafkaRecord → Bool} {s u : Consumption}
    → ConsumptionStep commit s u
    → IsConsistent s
    → IsConsistent u
step-IsConsistent {commit} {s} (fetch r) v = record {
  agrees = λ p. fetch-Agrees r s.committer.tracker s.first s.done p (v.agrees p);
  covers = All-map (fetched-Covers r s.first s.done) s.committer.commits v.covers;
}
step-IsConsistent {commit} {s} (finish r c e) v =
    let (g, n, q) = round_inv commit r s.committer c e in
    subst (λ x. IsConsistent (record s { committer = x; done = handled r s.done })) (sym q)
      (record {
        agrees = λ p.
            rw
              (commit_one-tracker commit s.committer (complete_in r g).0
                (store r.partition (complete_in r g).1 s.committer.tracker))
              (finish-Agrees r s.committer.tracker s.first s.done g p n (v.agrees p));
        covers =
            commit_one-Covers commit r s.first s.done s.committer (complete_in r g).0
              (store r.partition (complete_in r g).1 s.committer.tracker)
              (All-map (grown-Covers r s.first s.done) s.committer.commits v.covers)
              (λ c' h.
                handed-Covers r s.committer.tracker s.first s.done g c' n (v.agrees r.partition) h);
      })

Consumed-IsConsistent :
    {commit : KafkaRecord → Bool} {s u : Consumption}
    → Consumed commit s u
    → IsConsistent s
    → IsConsistent u
Consumed-IsConsistent start v = v
Consumed-IsConsistent (next r st) v = step-IsConsistent st (Consumed-IsConsistent r v)

-- A consumer before its first record.
abbrev pub fresh_consumer : Consumption
fresh_consumer = record {
  committer = record { tracker = new_commit_tracker; commits = []; broken = false };
  first = λ p. none;
  done = λ p. [];
}

fresh-IsConsistent : IsConsistent fresh_consumer
fresh-IsConsistent = record { agrees = λ p. refl; covers = tt }

-- However records are fetched, handled and committed, and whether or not the broker accepts the
-- commits: every commit that was asked for covers only records that were handled, from the first
-- one fetched of its partition.
pub commits-Covers :
    (commit : KafkaRecord → Bool) (s : Consumption)
    → Consumed commit fresh_consumer s
    → All (Covers s.first s.done) s.committer.commits
commits-Covers commit s r = (Consumed-IsConsistent r fresh-IsConsistent).covers

-- However records are fetched and handled, the tracker implements its specification: of each partition
-- it keeps the first offset, from the first one fetched, whose record was not handled.
pub next-IsFirstGap :
    (commit : KafkaRecord → Bool) (s : Consumption) (p first : ℕ)
    → Consumed commit fresh_consumer s
    → s.first p ≡ some first
    → (g : Progress) × (s.committer.tracker p ≡ some g) × IsFirstGap first (s.done p) g.next
next-IsFirstGap commit s p first r f =
    known p (s.committer.tracker p) (s.first p) (s.done p) first
      ((Consumed-IsConsistent r fresh-IsConsistent).agrees p) f
