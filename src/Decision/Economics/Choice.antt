-- ===== src/Decision/Economics/Choice.antt =====
-- `best_of` picks the first of the greatest positive expected values (score.go).
use momotaro.Prelude.{
  ◌≡◌, inl, inr, refl, true, false, Option, none, some, List, [], ◌∷◌, ◌++◌, All, All-append, arith,
  Bool-cases,
}
use mathlib.Core.List.{append_assoc, append-nil}
use momotaro.Prelude.Int.{pos}
use momotaro.Platform.Float.{Float, IsNumber, ◌≼◌, IsOrdered}
use momotaro.Decision.Economics.{Score, keep_better, best_from, best_of}

module _ {F : Type 0} ⦃fl : Float F⦄ (laws : IsOrdered F) where
  open fl use {of_int, le, lt}
  open laws use {le_trans, le_total, lt-eq-not-le, of_int_number}

  abbrev pub zero_f : F
  zero_f = of_int (pos 0)

  -- Every expected value is a number, not a NaN.
  abbrev pub Numbers : List (Score F) → Type 0
  Numbers ss = All (λ s. IsNumber s.ev_paise) ss

  abbrev pub AtMost : F → List (Score F) → Type 0
  AtMost x ss = All (λ s. s.ev_paise ≼ x) ss

  abbrev pub Below : F → List (Score F) → Type 0
  Below x ss = All (λ s. lt s.ev_paise x ≡ true) ss

  -- The scores stand before and behind the chosen one; those before it are strictly worse.
  pub record IsFirstBest (ss : List (Score F)) (b : Score F) : Type 0 where
    pub front : List (Score F)
    pub back : List (Score F)
    pub parts : ss ≡ front ++ (b ∷ back)
    pub positive : le b.ev_paise zero_f ≡ false
    pub worse_before : Below b.ev_paise front
    pub no_better_after : AtMost b.ev_paise back

  abbrev pub Found : Option (Score F) → List (Score F) → Type 0
  Found none ss = AtMost zero_f ss
  Found (some b) ss = IsFirstBest ss b

  le_of_not_le : (x y : F) → IsNumber x → IsNumber y → le x y ≡ false → y ≼ x
  le_of_not_le x y nx ny h = elim (le_total x y nx ny) [ inl p ↦ cc | inr q ↦ q ]

  le_of_not_lt : (x y : F) → IsNumber x → IsNumber y → lt x y ≡ false → y ≼ x
  le_of_not_lt x y nx ny h = ground (arith, lt-eq-not-le x y nx ny)

  lt_of_lt : (x y : F) → IsNumber x → IsNumber y → lt x y ≡ true → x ≼ y
  lt_of_lt x y nx ny h = le_of_not_le y x ny nx (ground (arith, lt-eq-not-le x y nx ny))

  -- What is at most `y`, which is below `z`, is below `z`.
  lt_of_le_lt :
      (x y z : F) → IsNumber x → IsNumber y → IsNumber z → x ≼ y → lt y z ≡ true → lt x z ≡ true
  lt_of_le_lt x y z nx ny nz h k =
      ground (arith, lt-eq-not-le x z nx nz, lt-eq-not-le y z ny nz, le_trans z x y)

  lt_of_not_le : (x y : F) → IsNumber x → IsNumber y → le y x ≡ false → lt x y ≡ true
  lt_of_not_le x y nx ny h = ground (arith, lt-eq-not-le x y nx ny)

  AtMost-Below :
      (x y : F) (ss : List (Score F))
      → IsNumber x
      → IsNumber y
      → Numbers ss
      → lt x y ≡ true
      → AtMost x ss
      → Below y ss
  AtMost-Below x y [] nx ny ns h a = tt
  AtMost-Below x y (s ∷ ss) nx ny (n, ns) h (p, ps) =
      (lt_of_le_lt s.ev_paise x y n nx ny p h, AtMost-Below x y ss nx ny ns h ps)

  Below-AtMost : (x : F) (ss : List (Score F)) → IsNumber x → Numbers ss → Below x ss → AtMost x ss
  Below-AtMost x [] nx ns a = tt
  Below-AtMost x (s ∷ ss) nx (n, ns) (p, ps) =
      (lt_of_lt s.ev_paise x n nx p, Below-AtMost x ss nx ns ps)

  Numbers-split : (xs ys : List (Score F)) → Numbers (xs ++ ys) → Numbers xs × Numbers ys
  Numbers-split [] ys n = (tt, n)
  Numbers-split (x ∷ xs) ys (n, ns) = let (a, b) = Numbers-split xs ys ns in ((n, a), b)

  AtMost-first :
      (ss : List (Score F)) (b : Score F) → Numbers ss → IsFirstBest ss b → AtMost b.ev_paise ss
  AtMost-first ss b ns f =
      let (nf, nb) = Numbers-split f.front (b ∷ f.back) (rw f.parts at ns) in
      rw f.parts (
        All-append (λ s. s.ev_paise ≼ b.ev_paise) f.front (b ∷ f.back)
          (Below-AtMost b.ev_paise f.front nb.0 nf f.worse_before) (nb.0, f.no_better_after))

  first-IsNumber :
      (ss : List (Score F)) (b : Score F) → Numbers ss → IsFirstBest ss b → IsNumber b.ev_paise
  first-IsNumber ss b ns f = (Numbers-split f.front (b ∷ f.back) (rw f.parts at ns)).1.0

  append_last :
      (seen : List (Score F)) (b s : Score F)
      → IsFirstBest seen b
      → s.ev_paise ≼ b.ev_paise
      → IsFirstBest (seen ++ (s ∷ [])) b
  append_last seen b s f h = record {
    front = f.front;
    back = f.back ++ (s ∷ []);
    parts = rw f.parts (append_assoc f.front (b ∷ f.back) (s ∷ []));
    positive = f.positive;
    worse_before = f.worse_before;
    no_better_after =
        All-append (λ t. t.ev_paise ≼ b.ev_paise) f.back (s ∷ []) f.no_better_after (h, tt);
  }

  take_last :
      (seen : List (Score F)) (s : Score F)
      → le s.ev_paise zero_f ≡ false
      → Below s.ev_paise seen
      → IsFirstBest (seen ++ (s ∷ [])) s
  take_last seen s p w = record {
    front = seen;
    back = [];
    parts = refl;
    positive = p;
    worse_before = w;
    no_better_after = tt;
  }

  keep_better-Found :
      (best : Option (Score F)) (seen : List (Score F)) (s : Score F)
      → Numbers seen
      → IsNumber s.ev_paise
      → Found best seen
      → Found (keep_better best s) (seen ++ (s ∷ []))
  unfolding keep_better
  keep_better-Found none seen s ns n f = elim (Bool-cases (le s.ev_paise zero_f)) [
    | inl low ↦ rw low (All-append (λ t. t.ev_paise ≼ zero_f) seen (s ∷ []) f (low, tt))
    | inr high ↦ rw high (
        take_last seen s high (
          AtMost-Below zero_f s.ev_paise seen (of_int_number (pos 0)) n ns
            (lt_of_not_le zero_f s.ev_paise (of_int_number (pos 0)) n high) f))
  ]
  keep_better-Found (some b) seen s ns n f =
      let nb = first-IsNumber seen b ns f in
      elim (Bool-cases (le s.ev_paise zero_f)) [
        | inl low ↦ rw low (
            append_last seen b s f (
              le_trans s.ev_paise zero_f b.ev_paise low
                (le_of_not_le b.ev_paise zero_f nb (of_int_number (pos 0)) f.positive)))
        | inr high ↦ elim (Bool-cases (lt b.ev_paise s.ev_paise)) [
          | inl up ↦
              rw (high, up)
                (take_last seen s high
                  (AtMost-Below b.ev_paise s.ev_paise seen nb n ns up (AtMost-first seen b ns f)))
          | inr flat ↦
              rw (high, flat)
                (append_last seen b s f (le_of_not_lt b.ev_paise s.ev_paise nb n flat))
        ]
      ]

  best_from-Found :
      (best : Option (Score F)) (seen rest : List (Score F))
      → Numbers seen
      → Numbers rest
      → Found best seen
      → Found (best_from best rest) (seen ++ rest)
  unfolding best_from
  best_from-Found best seen [] ns nr f = rw append-nil f
  best_from-Found best seen (s ∷ rest) ns (n, nr) f = rw (← append_assoc seen (s ∷ []) rest) (
      best_from-Found (keep_better best s) (seen ++ (s ∷ [])) rest
        (All-append (λ t. IsNumber t.ev_paise) seen (s ∷ []) ns (n, tt)) nr
        (keep_better-Found best seen s ns n f))

  -- Over expected values that are numbers, `best_of` finds nothing only if none is positive, and
  -- what it finds is positive, at least every later score, and more than every earlier one.
  pub best_of-Found : (ss : List (Score F)) → Numbers ss → Found (best_of ss) ss
  unfolding best_of
  best_of-Found ss ns = best_from-Found none [] ss tt ns tt
