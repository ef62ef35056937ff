-- ===== src/Platform/HopCodec/RoundTrip.antt =====
-- What internal/platform/hopcodec/hopcodec.go writes it reads back.
use momotaro.Prelude.{
  ℕ, suc, ◌≡◌, ◌∙◌, ◌↔◌, refl, ap, false, ◌||◌, List, [], ◌∷◌, map, ◌++◌, inl, inr, arith,
  Bool-cases, Sum-cases, All,
}
use momotaro.Prelude.Text.{Bytes, contains, contains-append, split, join, cut, split-join, cut_at}
use momotaro.Platform.HopCodec.{
  ProviderHop, is_empty, has_delimiter, pair_sep, field_sep, joined, onto_hop, encode_parts, encode,
  decode_parts, decode,
}

-- A hop that can be stored: both fields are set, and neither holds a delimiter.
pub record IsStorable (h : ProviderHop) : Type 0 where
  pub provider_set : is_empty h.provider ≡ false
  pub result_set : is_empty h.result ≡ false
  pub provider_clean : has_delimiter h.provider ≡ false
  pub result_clean : has_delimiter h.result ≡ false

abbrev pub part : ProviderHop → Bytes
part h = h.provider ++ (field_sep ∷ h.result)

part_clean : (h : ProviderHop) → IsStorable h → contains pair_sep (part h) ≡ false
unfolding has_delimiter contains
part_clean h s = ground (
  arith,
  contains-append pair_sep h.provider (field_sep ∷ h.result),
  s.provider_clean,
  s.result_clean,
)

no_field : (h : ProviderHop) → IsStorable h → contains field_sep h.provider ≡ false
unfolding has_delimiter
no_field h s = ground (arith, s.provider_clean)

clean_parts :
    (hops : List ProviderHop)
    → All IsStorable hops
    → All (λ p. contains pair_sep p ≡ false) (map part hops)
clean_parts [] s = tt
clean_parts (h ∷ hops) (s, ss) = (part_clean h s, clean_parts hops ss)

-- A stored text that is not empty is split.
decode_set : (s : Bytes) → is_empty s ≡ false → decode s ≡ decode_parts (split pair_sep s)
unfolding decode
decode_set [] h = cc
decode_set (c ∷ s) h = refl

append-set : (s t : Bytes) → is_empty s ≡ false → is_empty (s ++ t) ≡ false
append-set [] t h = cc
append-set (c ∷ s) t h = refl

join-set :
    (h : ProviderHop) (hops : List ProviderHop)
    → IsStorable h
    → is_empty (join pair_sep (map part (h ∷ hops))) ≡ false
unfolding join
join-set h [] s = append-set h.provider _ s.provider_set
join-set h (k ∷ hops) s = append-set (part h) _ (append-set h.provider _ s.provider_set)

storable :
    (h : ProviderHop)
    → (is_empty h.provider || is_empty h.result) ≡ false
    → (has_delimiter h.provider || has_delimiter h.result) ≡ false
    → IsStorable h
storable h u d = ground arith

encode_parts-storable :
    (i : ℕ) (hops : List ProviderHop)
    → All IsStorable hops
    → encode_parts i hops ≡ inr (map part hops)
unfolding encode_parts
encode_parts-storable i [] s = refl
encode_parts-storable i (h ∷ hops) (s, ss) =
    rw (s.provider_set, s.result_set, s.provider_clean, s.result_clean)
      (rw (encode_parts-storable (suc i) hops ss) refl)

-- `Encode` goes on past a hop only if it can be stored.
IsStorable-encode_parts :
    (i : ℕ) (hops : List ProviderHop) {ps : List Bytes}
    → encode_parts i hops ≡ inr ps
    → All IsStorable hops
unfolding encode_parts
IsStorable-encode_parts i [] e = tt
IsStorable-encode_parts i (h ∷ hops) e =
    elim (Bool-cases (is_empty h.provider || is_empty h.result)) [
      | inl u ↦ cc (rw u at e)
      | inr u ↦ elim (Bool-cases (has_delimiter h.provider || has_delimiter h.result)) [
        | inl d ↦ cc (rw (u, d) at e)
        | inr d ↦ elim (Sum-cases (encode_parts (suc i) hops)) [
          | inl (err, q) ↦ cc (rw (u, d, q) at e)
          | inr (qs, q) ↦ (storable h u d, IsStorable-encode_parts (suc i) hops q)
        ]
      ]
    ]

onto_part :
    (h : ProviderHop) (hops : List ProviderHop)
    → IsStorable h
    → onto_hop (part h) (cut field_sep (part h)) (inr hops) ≡ inr (h ∷ hops)
onto_part h hops s =
    rw (cut_at field_sep h.provider h.result (no_field h s))
      (rw (s.provider_set, s.result_set) refl)

decode_parts-part :
    (hops : List ProviderHop) → All IsStorable hops → decode_parts (map part hops) ≡ inr hops
unfolding decode_parts
decode_parts-part [] s = refl
decode_parts-part (h ∷ hops) (s, ss) = rw (decode_parts-part hops ss) (onto_part h hops s)

decode-join :
    (h : ProviderHop) (hops : List ProviderHop)
    → All IsStorable (h ∷ hops)
    → decode (join pair_sep (map part (h ∷ hops))) ≡ inr (h ∷ hops)
decode-join h hops (s, ss) = rw (decode_set _ (join-set h hops s)) (
    rw (split-join pair_sep (part h) (map part hops) (part_clean h s) (clean_parts hops ss))
      (decode_parts-part (h ∷ hops) (s, ss)))

encode-storable :
    (hops : List ProviderHop)
    → All IsStorable hops
    → encode hops ≡ inr (join pair_sep (map part hops))
unfolding encode join
encode-storable [] s = refl
encode-storable (h ∷ hops) s = rw (encode_parts-storable 0 (h ∷ hops) s) refl

-- Hops can be encoded exactly if each has both fields set and no delimiter in either.
pub encode_iff :
    (hops : List ProviderHop) → ((s : Bytes) × (encode hops ≡ inr s)) ↔ All IsStorable hops
unfolding encode
encode_iff [] = (λ _. tt, λ _. ([], refl))
encode_iff (h ∷ hops) = (λ (s, e). stored e, λ s. (_, encode-storable (h ∷ hops) s))
  where
    stored : {s : Bytes} → joined (encode_parts 0 (h ∷ hops)) ≡ inr s → All IsStorable (h ∷ hops)
    stored e = elim (Sum-cases (encode_parts 0 (h ∷ hops))) [
      | inl (err, q) ↦ cc (rw q at e)
      | inr (ps, q) ↦ IsStorable-encode_parts 0 (h ∷ hops) q
    ]

decode-storable :
    (hops : List ProviderHop)
    → All IsStorable hops
    → decode (join pair_sep (map part hops)) ≡ inr hops
unfolding decode join
decode-storable [] s = refl
decode-storable (h ∷ hops) s = decode-join h hops s

-- What was encoded without an error is decoded to the same hops in the same order.
pub decode-encode :
    (hops : List ProviderHop) {s : Bytes} → encode hops ≡ inr s → decode s ≡ inr hops
decode-encode hops {s} e = ap decode text ∙ decode-storable hops storable_hops
  where
    storable_hops : All IsStorable hops
    storable_hops = (encode_iff hops).0 (s, e)

    text : s ≡ join pair_sep (map part hops)
    text = cc (encode-storable hops storable_hops)
