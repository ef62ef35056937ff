-- ===== src/Platform/Commits/Gap.antt =====
-- The offset that the tracker of internal/platform/kafkax/keyed.go keeps is the first one of its
-- partition that is not completed.
use momotaro.Prelude.{
  ℕ, zero, suc, ◌<◌, ◌≤◌, ◌==◌, ◌≡◌, refl, Bool, true, false, ◌||◌, Option, none, some, List, [],
  ◌∷◌, ltb, length, arith, ltb→lt, Bool-cases, Option-cases, inl, inr, if◌then◌else◌,
}
use momotaro.Platform.Commits.{
  KafkaRecord, Progress, find_offset, delete_offset, put_offset, advance, complete_in,
}

-- Whether an offset was completed.
unfoldable pub has : ℕ → List ℕ → Bool
has o [] = false
has o (x ∷ done) = (x == o) || has o done

abbrev is_there : Option KafkaRecord → Bool
is_there none = false
is_there (some r) = true

-- The specification: `n` is the first offset from `first` on that is not completed.
pub record IsFirstGap (first : ℕ) (done : List ℕ) (n : ℕ) : Type 0 where
  pub reached : first ≤ n
  pub before : (o : ℕ) → first ≤ o → o < n → has o done ≡ true
  pub gap : has n done ≡ false

-- Between commits the records kept are those completed past the gap.
pub record IsTracked (first : ℕ) (done : List ℕ) (g : Progress) : Type 0 where
  pub spec : IsFirstGap first done g.next
  pub kept :
      (o : ℕ) → is_there (find_offset o g.completed) ≡ (if ltb o g.next then false else has o done)

-- While the loop runs, the next offset may be completed.
record IsAdvancing (first : ℕ) (done : List ℕ) (g : Progress) : Type 0 where
  reached : first ≤ g.next
  before : (o : ℕ) → first ≤ o → o < g.next → has o done ≡ true
  kept :
      (o : ℕ) → is_there (find_offset o g.completed) ≡ (if ltb o g.next then false else has o done)

find-delete :
    (o k : ℕ) (recs : List KafkaRecord)
    → is_there (find_offset o (delete_offset k recs))
      ≡ (if k == o then false else is_there (find_offset o recs))
unfolding find_offset delete_offset
find-delete o k [] = ground arith
find-delete o k (r ∷ recs) = ground (arith, find-delete o k recs)

length-delete-le : (k : ℕ) (recs : List KafkaRecord) → length (delete_offset k recs) ≤ length recs
unfolding delete_offset
length-delete-le k [] = omega arith
length-delete-le k (r ∷ recs) = ground (arith, length-delete-le k recs)

length-delete-lt :
    (k : ℕ) (recs : List KafkaRecord) (r : KafkaRecord)
    → find_offset k recs ≡ some r
    → length (delete_offset k recs) < length recs
unfolding find_offset delete_offset
length-delete-lt k [] r e = cc
length-delete-lt k (s ∷ recs) r e =
    ground (arith, length-delete-le k recs, length-delete-lt k recs r)

found_offset :
    (k : ℕ) (recs : List KafkaRecord) (r : KafkaRecord) → find_offset k recs ≡ some r → r.offset ≡ k
unfolding find_offset
found_offset k [] r e = cc
found_offset k (s ∷ recs) r e = ground (arith, found_offset k recs r)

advance_step :
    (first : ℕ) (done : List ℕ) (g : Progress) {r : KafkaRecord}
    → IsAdvancing first done g
    → find_offset g.next g.completed ≡ some r
    → IsAdvancing first done
        (record { next = suc g.next; completed = delete_offset g.next g.completed })
advance_step first done g a e = record {
  reached = omega (arith, a.reached);
  before = λ o l h. ground (arith, a.before o l, a.kept g.next, e);
  kept = λ o. ground (arith, a.kept o, find-delete o g.next g.completed);
}

nothing_left : (k : ℕ) (recs : List KafkaRecord) → length recs ≤ 0 → find_offset k recs ≡ none
unfolding find_offset
nothing_left k [] h = refl
nothing_left k (r ∷ recs) h = absurd (omega arith)

settled :
    (first : ℕ) (done : List ℕ) (g : Progress)
    → IsAdvancing first done g
    → find_offset g.next g.completed ≡ none
    → IsTracked first done g
settled first done g a e = record {
  spec = record { reached = a.reached; before = a.before; gap = ground (arith, a.kept g.next, e) };
  kept = a.kept;
}

-- The loop ends at the gap.
advance-IsTracked :
    (fuel : ℕ) (first : ℕ) (done : List ℕ) (g : Progress) (advanced : Option KafkaRecord)
    → length g.completed ≤ fuel
    → IsAdvancing first done g
    → IsTracked first done (advance fuel g advanced).1
unfolding advance
advance-IsTracked zero first done g advanced l a =
    settled first done g a (nothing_left g.next g.completed l)
advance-IsTracked (suc fuel) first done g advanced l a =
    elim (Option-cases (find_offset g.next g.completed)) [
      | inl e ↦ rw (e, advance) (settled first done g a e)
      | inr (r, e) ↦
          rw (e, advance)
            (advance-IsTracked fuel first done
              (record { next = suc g.next; completed = delete_offset g.next g.completed }) (some r)
              (omega (arith, length-delete-lt g.next g.completed r e))
              (advance_step first done g a e))
    ]

handed :
    (g : Progress) (s x : KafkaRecord)
    → find_offset g.next g.completed ≡ some s
    → ◌≡◌ {A = Option KafkaRecord} (some s) (some x)
    → suc x.offset ≡ suc g.next
handed g s x n q = ground (arith, found_offset g.next g.completed s n, q)

-- What the loop hands out is the record just before the gap.
advance_handed :
    (fuel : ℕ) (g : Progress) (advanced : Option KafkaRecord)
    → ((r : KafkaRecord) → advanced ≡ some r → suc r.offset ≡ g.next)
    → (r : KafkaRecord) → (advance fuel g advanced).0 ≡ some r
    → suc r.offset ≡ (advance fuel g advanced).1.next
unfolding advance
advance_handed zero g advanced h r e = h r e
advance_handed (suc fuel) g advanced h r e = elim (Option-cases (find_offset g.next g.completed)) [
  | inl n ↦ rw (n, advance) (h r (rw (n, advance) at e))
  | inr (s, n) ↦
      rw (n, advance)
        (advance_handed fuel
          (record { next = suc g.next; completed = delete_offset g.next g.completed }) (some s)
          (λ x q. handed g s x n q) r (rw (n, advance) at e))
]

find-put :
    (o : ℕ) (r : KafkaRecord) (recs : List KafkaRecord)
    → is_there (find_offset o (put_offset r recs))
      ≡ (if r.offset == o then true else is_there (find_offset o recs))
unfolding put_offset find_offset
find-put o r recs = ground (arith, find-delete o r.offset recs)

-- An offset behind the gap changes nothing.
old-IsTracked :
    (first : ℕ) (done : List ℕ) (g : Progress) (x : ℕ)
    → IsTracked first done g
    → x < g.next
    → IsTracked first (x ∷ done) g
unfolding has
old-IsTracked first done g x v old = record {
  spec = record {
    reached = v.spec.reached;
    before = λ o l h. ground (arith, v.spec.before o l h);
    gap = ground (arith, v.spec.gap);
  };
  kept = λ o. ground (arith, v.kept o);
}

put-IsAdvancing :
    (first : ℕ) (done : List ℕ) (g : Progress) (r : KafkaRecord)
    → IsTracked first done g
    → ltb r.offset g.next ≡ false
    → IsAdvancing first
        (r.offset ∷ done)
        (record { next = g.next; completed = put_offset r g.completed })
unfolding has
put-IsAdvancing first done g r v fresh = record {
  reached = v.spec.reached;
  before = λ o l h. ground (arith, v.spec.before o l h);
  kept = λ o. ground (arith, v.kept o, find-put o r g.completed, fresh);
}

-- Completing a record of the partition, in whatever order, keeps the tracker at the first gap.
pub complete_in-IsTracked :
    (first : ℕ) (done : List ℕ) (g : Progress) (r : KafkaRecord)
    → IsTracked first done g
    → IsTracked first (r.offset ∷ done) (complete_in r g).1
unfolding complete_in
complete_in-IsTracked first done g r v = elim (Bool-cases (ltb r.offset g.next)) [
  | inl old ↦ rw (old, complete_in) (old-IsTracked first done g r.offset v (ltb→lt _ _ old))
  | inr fresh ↦
      rw (fresh, complete_in)
        (advance-IsTracked (length (put_offset r g.completed)) first (r.offset ∷ done)
          (record { next = g.next; completed = put_offset r g.completed }) none (omega arith)
          (put-IsAdvancing first done g r v fresh))
]

-- What completing a record hands out for a commit is the record just before the gap.
pub complete_in-handed :
    (g : Progress) (r c : KafkaRecord)
    → (complete_in r g).0 ≡ some c
    → suc c.offset ≡ (complete_in r g).1.next
unfolding complete_in
complete_in-handed g r c e = elim (Bool-cases (ltb r.offset g.next)) [
  | inl old ↦ cc (rw (old, complete_in) at e)
  | inr fresh ↦
      rw (fresh, complete_in)
        (advance_handed (length (put_offset r g.completed))
          (record { next = g.next; completed = put_offset r g.completed }) none (λ x q. cc) c
          (rw (fresh, complete_in) at e))
]
