-- ===== src/Database/Rows.antt =====
-- How a statement on one record's rows looks to the others.
use momotaro.Prelude.{
  ◌==◌, ◌≡◌, refl, Option, none, some, List, [], ◌∷◌, ◌++◌, arith, if◌then◌else◌,
}
use momotaro.Proto.{Uuid}
use momotaro.Database.{StateRow, AuditRow, find_state, update_state, audit_of}

module _ {F : Type 0} where
  abbrev pub map_option : (StateRow F → StateRow F) → Option (StateRow F) → Option (StateRow F)
  map_option f none = none
  map_option f (some r) = some (f r)

  -- An update that keeps the key is seen at its key and nowhere else.
  pub find-update :
      (id j : Uuid) (f : StateRow F → StateRow F) (rs : List (StateRow F))
      → ((r : StateRow F) → (f r).record_id ≡ r.record_id)
      → find_state j (update_state id f rs)
        ≡ (if id == j then map_option f (find_state j rs) else find_state j rs)
  unfolding find_state update_state
  find-update id j f [] k = ground arith
  find-update id j f (r ∷ rs) k = ground (arith, k r, find-update id j f rs k)

  pub find-append :
      (j : Uuid) (rs : List (StateRow F)) (new : StateRow F)
      → find_state j rs ≡ none
      → find_state j (rs ++ (new ∷ [])) ≡ (if new.record_id == j then some new else none)
  unfolding find_state
  find-append j [] new h = refl
  find-append j (r ∷ rs) new h = ground (arith, find-append j rs new)

  pub find-append_old :
      (j : Uuid) (rs : List (StateRow F)) (new : StateRow F) {s : StateRow F}
      → find_state j rs ≡ some s
      → find_state j (rs ++ (new ∷ [])) ≡ some s
  unfolding find_state
  find-append_old j [] new h = cc
  find-append_old j (r ∷ rs) new {s} h = ground (arith, find-append_old j rs new {s = s})

  pub find-key :
      (j : Uuid) (rs : List (StateRow F)) {s : StateRow F}
      → find_state j rs ≡ some s
      → s.record_id ≡ j
  unfolding find_state
  find-key j [] h = cc
  find-key j (r ∷ rs) {s} h = ground (arith, find-key j rs {s = s})

  pub audit-append :
      (j : Uuid) (rs new : List (AuditRow F))
      → audit_of j (rs ++ new) ≡ audit_of j rs ++ audit_of j new
  unfolding audit_of
  audit-append j [] new = refl
  audit-append j (r ∷ rs) new = ground (arith, audit-append j rs new)
