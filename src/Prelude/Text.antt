-- ===== src/Prelude/Text.antt =====
-- Texts as Go's standard library treats them: a string is its bytes, and the functions are those of
-- the package `strings` that the services call. Letters beyond ASCII have no case here.
use Prim.Native.Char.{code}
use momotaro.Prelude.{
  ℕ, ◌≡◌, ◌∙◌, refl, ap, Bool, true, false, ◌&&◌, ◌||◌, Option, none, some, List, [], ◌∷◌, ◌++◌,
  String, arith, ◌==◌, if◌then◌else◌, All,
}

abbrev pub Bytes : Type 0
Bytes = List ℕ

-- The bytes of a literal, which is ASCII.
abbrev pub codes : String → Bytes
codes String.[] = []
codes (String.◌∷◌ c s) = code c ∷ codes s

-- Equality of texts.
unfoldable pub same : Bytes → Bytes → Bool
same [] [] = true
same (a ∷ s) (b ∷ t) = (a == b) && same s t
same _ _ = false

pub same_refl : (s : Bytes) → same s s ≡ true
unfolding same
same_refl [] = refl
same_refl (a ∷ s) = ground (arith, same_refl s)

pub same→eq : (s t : Bytes) → same s t ≡ true → s ≡ t
unfolding same
same→eq [] [] h = refl
same→eq [] (b ∷ t) h = cc
same→eq (a ∷ s) [] h = cc
same→eq (a ∷ s) (b ∷ t) h = ground (arith, same→eq s t)

-- `strings.ContainsRune(s, c)`.
unfoldable pub contains : ℕ → Bytes → Bool
contains c [] = false
contains c (a ∷ s) = (a == c) || contains c s

pub contains-append : (c : ℕ) (s t : Bytes) → contains c (s ++ t) ≡ (contains c s || contains c t)
unfolding contains
contains-append c [] t = refl
contains-append c (a ∷ s) t = ground (arith, contains-append c s t)

-- `strings.HasPrefix(s, p)`, as what is left behind the prefix.
unfoldable pub strip_prefix : Bytes → Bytes → Option Bytes
strip_prefix [] s = some s
strip_prefix (a ∷ p) [] = none
strip_prefix (a ∷ p) (b ∷ s) = if a == b then strip_prefix p s else none

abbrev pub is_some {ℓ} : {A : Type ℓ} → Option A → Bool
is_some none = false
is_some (some a) = true

-- `strings.Contains(s, p)`.
unfoldable pub contains_text : Bytes → Bytes → Bool
unfolding strip_prefix
contains_text p [] = is_some (strip_prefix p [])
contains_text p (b ∷ s) = is_some (strip_prefix p (b ∷ s)) || contains_text p s

-- `strings.Split(s, sep)` for a separator of one byte: never an empty list.
onto_first : ℕ → List Bytes → List Bytes
onto_first c [] = (c ∷ []) ∷ []
onto_first c (p ∷ ps) = (c ∷ p) ∷ ps

unfoldable pub split : ℕ → Bytes → List Bytes
unfolding onto_first
split sep [] = [] ∷ []
split sep (c ∷ s) = let rest = split sep s in if c == sep then [] ∷ rest else onto_first c rest

-- `strings.Join(ps, sep)`.
unfoldable pub join : ℕ → List Bytes → Bytes
join sep [] = []
join sep (p ∷ []) = p
join sep (p ∷ q ∷ ps) = p ++ (sep ∷ join sep (q ∷ ps))

-- `strings.Cut(s, sep)`.
abbrev before_cut : ℕ → Option (Bytes × Bytes) → Option (Bytes × Bytes)
before_cut c none = none
before_cut c (some (l, r)) = some (c ∷ l, r)

unfoldable pub cut : ℕ → Bytes → Option (Bytes × Bytes)
cut sep [] = none
cut sep (c ∷ s) = let rest = cut sep s in if c == sep then some ([], s) else before_cut c rest

pub split_one : (sep : ℕ) (p : Bytes) → contains sep p ≡ false → split sep p ≡ p ∷ []
unfolding split contains
split_one sep [] h = refl
split_one sep (c ∷ p) h = ground (arith, split_one sep p)

pub split_at :
    (sep : ℕ) (p s : Bytes) → contains sep p ≡ false → split sep (p ++ (sep ∷ s)) ≡ p ∷ split sep s
unfolding split contains
split_at sep [] s h = ground arith
split_at sep (c ∷ p) s h = ground (arith, split_at sep p s)

-- Splitting a join gives the parts back, if there is a part and none holds the separator.
pub split-join :
    (sep : ℕ) (p : Bytes) (ps : List Bytes)
    → contains sep p ≡ false
    → All (λ q. contains sep q ≡ false) ps
    → split sep (join sep (p ∷ ps)) ≡ p ∷ ps
unfolding join
split-join sep p [] h k = split_one sep p h
split-join sep p (q ∷ ps) h (k, ks) =
    split_at sep p (join sep (q ∷ ps)) h ∙ ap (λ rest. p ∷ rest) (split-join sep q ps k ks)

pub cut_at :
    (sep : ℕ) (p s : Bytes) → contains sep p ≡ false → cut sep (p ++ (sep ∷ s)) ≡ some (p, s)
unfolding cut contains
cut_at sep [] s h = ground arith
cut_at sep (c ∷ p) s h = ground (arith, cut_at sep p s)
