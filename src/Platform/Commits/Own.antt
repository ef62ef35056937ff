-- ===== src/Platform/Commits/Own.antt =====
-- The records that internal/platform/kafkax/keyed.go keeps of a partition are that partition's.
use momotaro.Prelude.{
  ℕ, zero, suc, ◌==◌, ◌≡◌, Option, none, some, List, [], ◌∷◌, length, ltb, Bool-cases, Option-cases,
  inl, inr, All,
}
use momotaro.Platform.Commits.{
  KafkaRecord, Progress, find_offset, delete_offset, put_offset, advance, complete_in,
}

module _ (p : ℕ) where
  abbrev pub Own : List KafkaRecord → Type 0
  Own recs = All (λ (r : KafkaRecord). r.partition ≡ p) recs

  abbrev OwnOption : Option KafkaRecord → Type 0
  OwnOption none = Unit
  OwnOption (some r) = r.partition ≡ p

  delete-Own : (k : ℕ) (recs : List KafkaRecord) → Own recs → Own (delete_offset k recs)
  unfolding delete_offset
  delete-Own k [] o = tt
  delete-Own k (r ∷ recs) (o, os) =
      let rest = delete-Own k recs os in
      elim (Bool-cases (r.offset == k)) [ inl e ↦ rw e rest | inr e ↦ rw e (o, rest) ]

  find-Own : (k : ℕ) (recs : List KafkaRecord) → Own recs → OwnOption (find_offset k recs)
  unfolding find_offset
  find-Own k [] o = tt
  find-Own k (r ∷ recs) (o, os) =
      let rest = find-Own k recs os in
      elim (Bool-cases (r.offset == k)) [ inl e ↦ rw e o | inr e ↦ rw e rest ]

  -- Both what the loop hands out and what it keeps.
  advance-Own :
      (fuel : ℕ) (g : Progress) (advanced : Option KafkaRecord)
      → Own g.completed
      → OwnOption advanced
      → OwnOption (advance fuel g advanced).0 × Own (advance fuel g advanced).1.completed
  unfolding advance
  advance-Own zero g advanced o a = (a, o)
  advance-Own (suc fuel) g advanced o a = elim (Option-cases (find_offset g.next g.completed)) [
    | inl e ↦ rw (e, advance) (a, o)
    | inr (r, e) ↦
        rw (e, advance)
          (advance-Own fuel
            (record { next = suc g.next; completed = delete_offset g.next g.completed }) (some r)
            (delete-Own g.next g.completed o) (rw e at (find-Own g.next g.completed o)))
  ]

  pub complete_in-Own :
      (r : KafkaRecord) (g : Progress)
      → r.partition ≡ p
      → Own g.completed
      → OwnOption (complete_in r g).0 × Own (complete_in r g).1.completed
  unfolding complete_in put_offset
  complete_in-Own r g e o = elim (Bool-cases (ltb r.offset g.next)) [
    | inl old ↦ rw (old, complete_in) (tt, o)
    | inr fresh ↦
        rw (fresh, complete_in)
          (advance-Own (length (put_offset r g.completed))
            (record { next = g.next; completed = put_offset r g.completed }) none
            (e, delete-Own r.offset g.completed o) tt)
  ]
