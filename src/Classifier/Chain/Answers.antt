-- ===== src/Classifier/Chain/Answers.antt =====
-- Every walk over the rungs of services/classifier/internal/provider/chain.go that ends in a sure rung
-- produces a response.
use mathlib.Core.Path.{subst}
use momotaro.Prelude.{
  ◌≡◌, ◌≢◌, refl, sym, true, false, Option, none, some, List, [], ◌∷◌, ◌++◌, ◌⊎◌, inl, inr, arith,
  Option-cases, Sum-cases, All, All-append,
}
use momotaro.Prelude.Text.{Bytes}
use momotaro.Platform.HopCodec.{ProviderHop}
use momotaro.Platform.Time.{Time}
use momotaro.Proto.{Source}
use momotaro.Classifier.{
  HopResult, ok, schema_invalid, deadline_exhausted, new_hop, ProviderError, Rung, Method,
  ChainConfig, rung_ctx,
}
use momotaro.Classifier.Chain.{is_nil, judge, hop_result_for_error, source_for, walk}
use momotaro.Classifier.Chain.Terminal.{EndsIn}

-- The hop of a rung that did not answer, under a name with the property `P`.
abbrev pub Failed : (Bytes → Type 0) → ProviderHop → Type 0
Failed P h = (name : Bytes) × (r : HopResult) × P name × (r ≢ ok) × (h ≡ new_hop name r)

-- A rung that answers the request, at any time, with a response that is accepted.
abbrev pub IsSure : {W Q R : Type 0} → Method Q R → Q → Rung W Q R → Type 0
IsSure {W} {Q} {R} method q p =
    (deadline : Option Time) (w : W)
    → (resp : R) × ((p.call deadline q w).0 ≡ inr (some resp)) × (method.is_valid q resp ≡ true)

hop_result-ne-ok : (e : ProviderError) → hop_result_for_error e ≢ ok
unfolding hop_result_for_error
hop_result-ne-ok e h = ground arith

-- An answer to `q`: an accepted response of one rung, stamped with the hops of the failures before
-- it, its own hop, and its source.
pub record Answered {Q R : Type 0} (method : Method Q R) (P : Bytes → Type 0) (q : Q)
    (out : Option R) : Type 0 where
  pub name : Bytes
  pub failed : List ProviderHop
  pub resp : R
  pub named : P name
  pub failures : All (Failed P) failed
  pub valid : method.is_valid q resp ≡ true
  pub answer : out ≡ some (method.stamp (failed ++ (new_hop name ok ∷ [])) (source_for name) resp)

module _ {W Q R : Type 0} (method : Method Q R) (P : Bytes → Type 0) where
  judge_ok :
      (r : Rung W Q R) (q : Q) (reply : ProviderError ⊎ Option R) {resp : R}
      → judge method r q reply ≡ inr resp
      → method.is_valid q resp ≡ true
  unfolding judge
  judge_ok r q (inl err) e = cc
  judge_ok r q (inr none) e = cc
  judge_ok r q (inr (some resp)) e = ground arith

  judge-Failed :
      (r : Rung W Q R) (q : Q) (reply : ProviderError ⊎ Option R) {hop : ProviderHop}
      → P r.name
      → judge method r q reply ≡ inl hop
      → Failed P hop
  unfolding judge
  judge-Failed r q (inl err) n e = (r.name, hop_result_for_error err, n, hop_result-ne-ok err, cc)
  judge-Failed r q (inr none) n e = (r.name, schema_invalid, n, cc, cc)
  judge-Failed r q (inr (some resp)) n e = (r.name, schema_invalid, n, cc, ground arith)

  pub judge_accepted :
      (r : Rung W Q R) (q : Q) (reply : ProviderError ⊎ Option R) (resp : R)
      → reply ≡ inr (some resp)
      → method.is_valid q resp ≡ true
      → judge method r q reply ≡ inr resp
  unfolding judge
  judge_accepted r q reply resp e v = rw e (rw v refl)

  pub terminal-Answered :
      (now : W → Time) (cfg : ChainConfig) (deadline : Option Time) (q : Q) (p : Rung W Q R)
      (hops : List ProviderHop) (w : W)
      → IsSure method q p
      → P p.name
      → All (Failed P) hops
      → Answered method P q (walk method now cfg deadline q (p ∷ []) hops w).0
  unfolding walk rung_ctx
  terminal-Answered now cfg deadline q p hops w sure n f =
      let (resp, e, v) = sure deadline w in
      record {
        name = p.name;
        failed = hops;
        resp = resp;
        named = n;
        failures = f;
        valid = v;
        answer = rw (judge_accepted p q (p.call deadline q w).0 resp e v, walk) refl;
      }

  -- A rung that answered ends the walk.
  answered :
      (now : W → Time) (cfg : ChainConfig) (deadline d : Option Time) (q : Q) (r s : Rung W Q R)
      (rungs : List (Rung W Q R)) (hops : List ProviderHop) (w : W) (resp : R)
      → P r.name
      → All (Failed P) hops
      → rung_ctx deadline cfg.rung_timeout cfg.reserve false (now w) ≡ some d
      → judge method r q (r.call d q w).0 ≡ inr resp
      → Answered method P q (walk method now cfg deadline q (r ∷ s ∷ rungs) hops w).0
  unfolding walk
  answered now cfg deadline d q r s rungs hops w resp n f a j = record {
    name = r.name;
    failed = hops;
    resp = resp;
    named = n;
    failures = f;
    valid = judge_ok r q (r.call d q w).0 j;
    answer = rw (a, j) refl;
  }

  pub walk-Answered :
      (now : W → Time) (cfg : ChainConfig) (deadline : Option Time) (q : Q) (p : Rung W Q R)
      → IsSure method q p
      → (rungs : List (Rung W Q R)) (hops : List ProviderHop) (w : W) → EndsIn p rungs
      → All (λ (r : Rung W Q R). P r.name) rungs
      → All (Failed P) hops
      → Answered method P q (walk method now cfg deadline q rungs hops w).0
  unfolding walk
  walk-Answered now cfg deadline q p sure [] hops w e n f = absurd e
  walk-Answered now cfg deadline q p sure (r ∷ []) hops w e (n, _) f =
      subst (λ x. Answered method P q (walk method now cfg deadline q (x ∷ []) hops w).0) (sym e)
        (terminal-Answered now cfg deadline q p hops w sure (subst (λ x. P x.name) e n) f)
  walk-Answered now cfg deadline q p sure (r ∷ s ∷ rungs) hops w e (n, ns) f =
      elim (Option-cases (rung_ctx deadline cfg.rung_timeout cfg.reserve false (now w))) [
        | inl a ↦ rw a (
            walk-Answered now cfg deadline q p sure (s ∷ rungs)
              (hops ++ (new_hop r.name deadline_exhausted ∷ [])) w e ns
              (All-append (Failed P) hops _ f ((r.name, deadline_exhausted, n, cc, refl), tt)))
        | inr (d, a) ↦ elim (Sum-cases (judge method r q (r.call d q w).0)) [
          | inr (resp, j) ↦ answered now cfg deadline d q r s rungs hops w resp n f a j
          | inl (hop, j) ↦
              rw (a, j)
                (walk-Answered now cfg deadline q p sure (s ∷ rungs) (hops ++ (hop ∷ []))
                  (r.call d q w).1 e ns
                  (All-append (Failed P) hops _ f (judge-Failed r q (r.call d q w).0 n j, tt)))
        ]
      ]

  -- Whatever a walk returns was accepted by the check, before it was stamped.
  pub walk_valid :
      (now : W → Time) (cfg : ChainConfig) (deadline : Option Time) (q : Q)
      (rungs : List (Rung W Q R)) (hops : List ProviderHop) (w : W) {out : R}
      → (walk method now cfg deadline q rungs hops w).0 ≡ some out
      → (hops' : List ProviderHop) × (source : Source) × (resp : R) × (method.is_valid q resp
          ≡ true)
        × (out ≡ method.stamp hops' source resp)
  unfolding walk
  walk_valid now cfg deadline q [] hops w e = cc
  walk_valid now cfg deadline q (r ∷ rungs) hops w e =
      elim (Option-cases (rung_ctx deadline cfg.rung_timeout cfg.reserve (is_nil rungs) (now w))) [
        | inl a ↦
            walk_valid now cfg deadline q rungs (hops ++ (new_hop r.name deadline_exhausted ∷ [])) w
              (rw (a, walk) at e)
        | inr (d, a) ↦ elim (Sum-cases (judge method r q (r.call d q w).0)) [
          | inl (hop, j) ↦
              walk_valid now cfg deadline q rungs (hops ++ (hop ∷ [])) (r.call d q w).1
                (rw (a, j, walk) at e)
          | inr (resp, j) ↦ (
            hops ++ (new_hop r.name ok ∷ []),
            source_for r.name,
            resp,
            judge_ok r q (r.call d q w).0 j,
            cc (rw (a, j, walk) at e),
          )
        ]
      ]
