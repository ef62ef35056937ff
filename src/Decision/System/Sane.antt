-- ===== src/Decision/System/Sane.antt =====
-- What holds of the rows of record_state and of the claims in flight between two transactions.
use momotaro.Prelude.{
  ℕ, ◌+◌, ◌≤◌, ◌==◌, ==_iff, ◌≡◌, ◌≢◌, refl, sym, ap, ◌∙◌, inl, inr, true, false, Option, none,
  some, List, [], ◌∷◌, ◌++◌, All, All-map, All-split, All-append, arith, Bool-cases, Option-cases,
  if◌then◌else◌,
}
use momotaro.Proto.{Uuid, ActionType, RecordState}
use momotaro.Database.{StateRow, find_state, update_state}
use momotaro.Database.Rows.{find-append, find-append_old}
use momotaro.Database.Keys.{
  Distinct, Elsewhere, update-Elsewhere, update-found, update-Distinct, append-Distinct,
}
use momotaro.Decision.Routing.{is_nudge}
use momotaro.Decision.Scheduler.Trails.{Claimed}
use momotaro.Decision.Store.Claim.{is_scheduled}
use momotaro.Decision.Store.Writes.{ClaimedRecord}

-- A scheduled record has a pending action of its kind.
abbrev pub Fits : RecordState → Option ActionType → Type 0
Fits RecordState.retry_scheduled p = p ≡ some ActionType.retry
Fits RecordState.nudge_scheduled none = false ≡ true
Fits RecordState.nudge_scheduled (some a) = is_nudge a ≡ true
Fits _ p = Unit

module _ {F : Type 0} where
  abbrev pub AllFit : List (StateRow F) → Type 0
  AllFit rows =
      (id : Uuid) (r : StateRow F)
      → find_state id rows ≡ some r
      → Fits r.current_state r.pending_action

  abbrev pub Sane : List (StateRow F) → Type 0
  Sane rows = Distinct rows × AllFit rows

  -- The record is as its claim left it.
  abbrev pub Held : List (StateRow F) → ClaimedRecord F → Type 0
  Held rows c =
      (r : StateRow F) × (find_state c.record_id rows ≡ some r)
      × (r.current_state ≡ c.claimed)
      × (r.attempt_count ≡ c.attempt_count)
      × Claimed c.claimed c.pending_action

  abbrev pub flights_of : Uuid → List (ClaimedRecord F) → ℕ
  flights_of id [] = 0
  flights_of id (c ∷ cs) =
      let rest = flights_of id cs in if id == c.record_id then rest + 1 else rest

  -- The claims in flight are of different records, each as its claim left it.
  abbrev pub Flights : List (StateRow F) → List (ClaimedRecord F) → Type 0
  Flights rows cs = All (Held rows) cs × ((id : Uuid) → flights_of id cs ≤ 1)

  pub update-Sane :
      (id : Uuid) (f : StateRow F → StateRow F) (rows : List (StateRow F)) (s : StateRow F)
      → ((r : StateRow F) → (f r).record_id ≡ r.record_id)
      → find_state id rows ≡ some s
      → Fits (f s).current_state (f s).pending_action
      → Sane rows
      → Sane (update_state id f rows)
  update-Sane id f rows s key found fit (d, all) = (
    update-Distinct id f rows key d,
    λ k r e. elim (Bool-cases (id == k)) [
      | inl same ↦
          let at_k : id ≡ k = (==_iff id k).0 same in
          let at_id : find_state id (update_state id f rows) ≡ some r =
            ap (λ j. find_state j (update_state id f rows)) at_k ∙ e in
          let here : some r ≡ some (f s) = sym at_id ∙ update-found id f rows s key found in
          let it : r ≡ f s = cc in rw it fit
      | inr other ↦ all k r (sym (update-Elsewhere id f rows key k other) ∙ e)
    ],
  )

  pub insert-Sane :
      (rows : List (StateRow F)) (new : StateRow F)
      → find_state new.record_id rows ≡ none
      → Fits new.current_state new.pending_action
      → Sane rows
      → Sane (rows ++ (new ∷ []))
  insert-Sane rows new free fit (d, all) = (
    append-Distinct rows new free d,
    λ k r e. elim (Option-cases (find_state k rows)) [
      | inr (q, found) ↦
          let old : find_state k (rows ++ (new ∷ [])) ≡ some q = find-append_old k rows new found in
          let it : r ≡ q = cc in rw it (all k q found)
      | inl absent ↦
          let it : r ≡ new = ground (arith, find-append k rows new absent, e) in rw it fit
    ],
  )

  pub Elsewhere-Held :
      (id : Uuid) (old new : List (StateRow F)) (c : ClaimedRecord F)
      → Elsewhere id old new
      → (id == c.record_id) ≡ false
      → Held old c
      → Held new c
  Elsewhere-Held id old new c same other (r, found, state, count, k) =
      (r, same c.record_id other ∙ found, state, count, k)

  pub Elsewhere-AllHeld :
      (id : Uuid) (old new : List (StateRow F)) (cs : List (ClaimedRecord F))
      → Elsewhere id old new
      → flights_of id cs ≡ 0
      → All (Held old) cs
      → All (Held new) cs
  Elsewhere-AllHeld id old new [] same free held = tt
  Elsewhere-AllHeld id old new (c ∷ cs) same free (h, hs) = (
    Elsewhere-Held id old new c same (ground arith) h,
    Elsewhere-AllHeld id old new cs same (ground arith) hs,
  )

  pub flights_of-append :
      (id : Uuid) (xs ys : List (ClaimedRecord F))
      → flights_of id (xs ++ ys) ≡ flights_of id xs + flights_of id ys
  flights_of-append id [] ys = omega arith
  flights_of-append id (x ∷ xs) ys = ground (arith, flights_of-append id xs ys)

  -- Taking one claim out of the list.
  pub Flights-remove :
      (rows : List (StateRow F)) (c : ClaimedRecord F) (before behind : List (ClaimedRecord F))
      → Flights rows (before ++ (c ∷ behind))
      → Held rows c
        × (flights_of c.record_id (before ++ behind) ≡ 0)
        × Flights rows (before ++ behind)
  Flights-remove rows c before behind (held, once) =
      let (left, (h, right)) = All-split (Held rows) before (c ∷ behind) held in
      let zero_left : flights_of c.record_id (before ++ behind) ≡ 0 = ground (
        arith,
        once c.record_id,
        flights_of-append c.record_id before (c ∷ behind),
        flights_of-append c.record_id before behind,
      ) in
      let once_left : (id : Uuid) → flights_of id (before ++ behind) ≤ 1 = λ id. ground (
        arith,
        once id,
        flights_of-append id before (c ∷ behind),
        flights_of-append id before behind,
      ) in
      (h, zero_left, (All-append (Held rows) before behind left right, once_left))

  pub differs-flights :
      (id : Uuid) (cs : List (ClaimedRecord F))
      → All (λ c. c.record_id ≢ id) cs
      → flights_of id cs ≡ 0
  differs-flights id [] d = refl
  differs-flights id (c ∷ cs) (d, ds) = elim (Bool-cases (id == c.record_id)) [
    | inl same ↦ absurd (d (sym ((==_iff id c.record_id).0 same)))
    | inr other ↦ rw other (differs-flights id cs ds)
  ]

  Held-claimed :
      (rows : List (StateRow F)) (c : ClaimedRecord F) (r : StateRow F)
      → find_state c.record_id rows ≡ some r
      → Held rows c
      → is_scheduled r.current_state ≡ false
  Held-claimed rows c r found (q, found_q, state, count, k) =
      let it : q ≡ r = cc in ground (arith, it)

  -- A scheduled record is not in flight.
  pub scheduled-flights :
      (rows : List (StateRow F)) (id : Uuid) (r : StateRow F) (cs : List (ClaimedRecord F))
      → find_state id rows ≡ some r
      → is_scheduled r.current_state ≡ true
      → All (Held rows) cs
      → flights_of id cs ≡ 0
  scheduled-flights rows id r cs found ready held = differs-flights id cs (
      All-map
        (λ c h e.
          let found_c : find_state c.record_id rows ≡ some r =
            ap (λ j. find_state j rows) e ∙ found in
          let busy = Held-claimed rows c r found_c h in cc)
        cs held)
