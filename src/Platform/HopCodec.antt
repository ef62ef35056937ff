-- ===== src/Platform/HopCodec.antt =====
-- internal/platform/hopcodec/hopcodec.go: the stored text of a classification's provider hops.
pub mod RoundTrip
use momotaro.Prelude.{
  ℕ, suc, ◌≡◌, Bool, true, false, ◌||◌, Option, none, some, List, [], ◌∷◌, ◌++◌, ◌⊎◌, inl, inr,
  if◌then◌else◌,
}
use momotaro.Prelude.Text.{Bytes, codes, contains, split, join, cut, is_some}

-- common.v1.ProviderHop.
pub record ProviderHop : Type 0 where
  pub provider : Bytes
  pub result : Bytes

-- `pairSep` and `fieldSep`.
abbrev pub pair_sep : ℕ
pair_sep = b','

abbrev pub field_sep : ℕ
field_sep = b':'

abbrev pub is_empty : Bytes → Bool
is_empty [] = true
is_empty (c ∷ s) = false

-- What `Encode` refuses, with the hop's index, and what `Decode` does, with the pair.
pub data HopError : Type 0 where
  unset : ℕ → HopError
  delimiter : ℕ → HopError
  malformed : Bytes → HopError

-- `strings.ContainsAny(s, pairSep+fieldSep)`.
unfoldable pub has_delimiter : Bytes → Bool
has_delimiter s = contains pair_sep s || contains field_sep s

abbrev pub onto : Bytes → HopError ⊎ List Bytes → HopError ⊎ List Bytes
onto p (inl e) = inl e
onto p (inr ps) = inr (p ∷ ps)

-- The loop of `Encode`: the parts from hop `i` on.
unfoldable pub encode_parts : ℕ → List ProviderHop → HopError ⊎ List Bytes
unfolding has_delimiter
encode_parts i [] = inr []
encode_parts i (h ∷ hops) =
    let rest = onto (h.provider ++ (field_sep ∷ h.result)) (encode_parts (suc i) hops) in
    if is_empty h.provider || is_empty h.result
    then inl (unset i)
    else if has_delimiter h.provider || has_delimiter h.result
    then inl (delimiter i)
    else rest

abbrev pub joined : HopError ⊎ List Bytes → HopError ⊎ Bytes
joined (inl e) = inl e
joined (inr ps) = inr (join pair_sep ps)

unfoldable pub encode : List ProviderHop → HopError ⊎ Bytes
unfolding encode_parts
encode [] = inr []
encode (h ∷ hops) = joined (encode_parts 0 (h ∷ hops))

abbrev pub onto_hop :
    Bytes → Option (Bytes × Bytes) → HopError ⊎ List ProviderHop → HopError ⊎ List ProviderHop
onto_hop p none rest = inl (malformed p)
onto_hop p (some (provider, result)) rest =
    if is_empty provider || is_empty result then inl (malformed p) else elim rest [
      | inl e ↦ inl e
      | inr hops ↦ inr (record { provider = provider; result = result } ∷ hops)
    ]

-- The loop of `Decode`.
unfoldable pub decode_parts : List Bytes → HopError ⊎ List ProviderHop
decode_parts [] = inr []
decode_parts (p ∷ ps) = let rest = decode_parts ps in onto_hop p (cut field_sep p) rest

unfoldable pub decode : Bytes → HopError ⊎ List ProviderHop
unfolding decode_parts
decode [] = inr []
decode (c ∷ s) = decode_parts (split pair_sep (c ∷ s))
