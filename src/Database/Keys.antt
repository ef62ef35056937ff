-- ===== src/Database/Keys.antt =====
-- The primary key of record_state: rows with distinct keys under the statements of the code.
use momotaro.Prelude.{
  ◌==◌, ==_iff, ◌≡◌, refl, inl, inr, true, false, none, some, List, [], ◌∷◌, ◌++◌, All, All-map,
  arith, Bool-cases,
}
use momotaro.Proto.{Uuid}
use momotaro.Database.{StateRow, find_state, update_state}
use momotaro.Database.Rows.{find-update, find-append}

module _ {F : Type 0} where
  abbrev pub Distinct : List (StateRow F) → Type 0
  Distinct [] = Unit
  Distinct (r ∷ rs) = (find_state r.record_id rs ≡ none) × Distinct rs

  -- Only the row of `id` differs.
  abbrev pub Elsewhere : Uuid → List (StateRow F) → List (StateRow F) → Type 0
  Elsewhere id old new = (k : Uuid) → (id == k) ≡ false → find_state k new ≡ find_state k old

  none-differs :
      (id : Uuid) (rs : List (StateRow F))
      → find_state id rs ≡ none
      → All (λ s. (id == s.record_id) ≡ false) rs
  unfolding find_state
  none-differs id [] e = tt
  none-differs id (r ∷ rs) e =
      let other : (r.record_id == id) ≡ false = ground arith in
      (ground arith, none-differs id rs (ground arith))

  pub Distinct-head :
      (r : StateRow F) (rs : List (StateRow F))
      → Distinct (r ∷ rs)
      → All (λ s. (r.record_id == s.record_id) ≡ false) rs
  Distinct-head r rs d = none-differs r.record_id rs d.0

  find-skip :
      (r s : StateRow F) (rs : List (StateRow F))
      → find_state r.record_id rs ≡ none
      → find_state s.record_id rs ≡ some s
      → find_state s.record_id (r ∷ rs) ≡ some s
  unfolding find_state
  find-skip r s rs free found = elim (Bool-cases (r.record_id == s.record_id)) [
    | inl same ↦
        let e : r.record_id ≡ s.record_id = (==_iff r.record_id s.record_id).0 same in
        let free' : find_state s.record_id rs ≡ none = rw (← e) free in cc
    | inr other ↦ rw other found
  ]

  -- With distinct keys every row is found at its own.
  pub Distinct-found :
      (rs : List (StateRow F)) → Distinct rs → All (λ s. find_state s.record_id rs ≡ some s) rs
  Distinct-found [] d = tt
  Distinct-found (r ∷ rs) d =
      let here : find_state r.record_id (r ∷ rs) ≡ some r = unfold find_state in ground arith in
      (here, All-map (λ s. find-skip r s rs d.0) rs (Distinct-found rs d.1))

  pub update-Elsewhere :
      (id : Uuid) (f : StateRow F → StateRow F) (rs : List (StateRow F))
      → ((r : StateRow F) → (f r).record_id ≡ r.record_id)
      → Elsewhere id rs (update_state id f rs)
  update-Elsewhere id f rs key k other = rw (find-update id k f rs key, other) refl

  pub update-found :
      (id : Uuid) (f : StateRow F → StateRow F) (rs : List (StateRow F)) (s : StateRow F)
      → ((r : StateRow F) → (f r).record_id ≡ r.record_id)
      → find_state id rs ≡ some s
      → find_state id (update_state id f rs) ≡ some (f s)
  update-found id f rs s key found =
      let same : (id == id) ≡ true = ground arith in
      rw (find-update id id f rs key, same, found) refl

  update-none :
      (id j : Uuid) (f : StateRow F → StateRow F) (rs : List (StateRow F))
      → ((r : StateRow F) → (f r).record_id ≡ r.record_id)
      → find_state j rs ≡ none
      → find_state j (update_state id f rs) ≡ none
  unfolding find_state update_state
  update-none id j f [] key e = refl
  update-none id j f (r ∷ rs) key e = ground (arith, key r, update-none id j f rs key)

  pub update-Distinct :
      (id : Uuid) (f : StateRow F → StateRow F) (rs : List (StateRow F))
      → ((r : StateRow F) → (f r).record_id ≡ r.record_id)
      → Distinct rs
      → Distinct (update_state id f rs)
  unfolding update_state
  update-Distinct id f [] key d = tt
  update-Distinct id f (r ∷ rs) key d = elim (Bool-cases (r.record_id == id)) [
    | inl same ↦
        rw (same, key r) (update-none id r.record_id f rs key d.0, update-Distinct id f rs key d.1)
    | inr other ↦
        rw other (update-none id r.record_id f rs key d.0, update-Distinct id f rs key d.1)
  ]

  pub cons-none :
      (j : Uuid) (r : StateRow F) (rs : List (StateRow F))
      → find_state j (r ∷ rs) ≡ none
      → ((j == r.record_id) ≡ false) × (find_state j rs ≡ none)
  unfolding find_state
  cons-none j r rs e =
      let other : (r.record_id == j) ≡ false = ground arith in (ground arith, ground arith)

  pub none-cons :
      (j : Uuid) (r : StateRow F) (rs : List (StateRow F))
      → (j == r.record_id) ≡ false
      → find_state j rs ≡ none
      → find_state j (r ∷ rs) ≡ none
  unfolding find_state
  none-cons j r rs other e = ground arith

  append-none :
      (j : Uuid) (rs : List (StateRow F)) (new : StateRow F)
      → find_state j rs ≡ none
      → (new.record_id == j) ≡ false
      → find_state j (rs ++ (new ∷ [])) ≡ none
  append-none j rs new e other = rw (find-append j rs new e, other) refl

  pub append-Distinct :
      (rs : List (StateRow F)) (new : StateRow F)
      → find_state new.record_id rs ≡ none
      → Distinct rs
      → Distinct (rs ++ (new ∷ []))
  append-Distinct [] new free d = (unfold find_state in refl, tt)
  append-Distinct (r ∷ rs) new free d =
      let (differs, free') = cons-none new.record_id r rs free in
      (append-none r.record_id rs new d.0 differs, append-Distinct rs new free' d.1)
