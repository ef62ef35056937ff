-- ===== src/Audit/Trails.antt =====
-- `trail_complete` decides whether a trail is a walk of the state machine that ends in the
-- record's state (statemachine.go, verify.go).
use momotaro.Prelude.{
  ℕ, ◌+◌, ◌≡◌, ◌≢◌, ◌↔◌, ◌⊎◌, ◌∙◌, sym, inl, inr, refl, Bool, true, false, none, some, List, [],
  ◌∷◌, arith,
}
use momotaro.Proto.{RecordState, is_state, is_state→eq}
use momotaro.Proto.{Uuid}
use momotaro.Audit.{
  Transition, RecordSnapshot, is_allowed_transition, first_fault, trail_complete, last_entry,
}

abbrev pub IsAllowed : RecordState → RecordState → Type 0
IsAllowed a b = is_allowed_transition a b ≡ true

-- The trail is a walk from `a` to `c` along allowed edges, one edge for each entry.
abbrev pub Walk : RecordState → List Transition → RecordState → Type 0
Walk a [] c = a ≡ c
Walk a (t ∷ ts) c = (t.from ≡ a) × IsAllowed t.from t.to × Walk t.to ts c

-- Where a chain of entries behind `a` leads.
abbrev ends : RecordState → List Transition → RecordState
ends a [] = a
ends a (t ∷ ts) = ends t.to ts

ends-last : (t : Transition) (ts : List Transition) → ends t.to ts ≡ (last_entry t ts).to
ends-last t [] = refl
ends-last t (u ∷ us) = ends-last u us

is_state_refl : (a : RecordState) → is_state a a ≡ true
is_state_refl a = ground arith

Walk-ends : (a c : RecordState) (ts : List Transition) → Walk a ts c → ends a ts ≡ c
Walk-ends a c [] w = w
Walk-ends a c (t ∷ ts) w = Walk-ends t.to c ts w.2

fault-Walk :
    (i : ℕ) (a : RecordState) (ts : List Transition)
    → first_fault i (some a) ts ≡ none
    → Walk a ts (ends a ts)
unfolding first_fault
fault-Walk i a [] h = refl
fault-Walk i a (t ∷ ts) h =
    let linked : is_state t.from a ≡ true = ground arith in
    let allowed : is_allowed_transition t.from t.to ≡ true = ground arith in
    (is_state→eq t.from a linked, allowed, fault-Walk (i + 1) t.to ts (ground arith))

Walk-fault :
    (i : ℕ) (a c : RecordState) (ts : List Transition)
    → Walk a ts c
    → first_fault i (some a) ts ≡ none
unfolding first_fault
Walk-fault i a c [] w = refl
Walk-fault i a c (t ∷ ts) (e, ok, w) =
    let linked : is_state t.from a ≡ true = rw e (is_state_refl a) in
    ground (arith, linked, ok, Walk-fault (i + 1) t.to c ts w)

first-free :
    (t : Transition) (ts : List Transition)
    → first_fault 0 none (t ∷ ts) ≡ first_fault 0 (some t.from) (t ∷ ts)
unfolding first_fault
first-free t ts = ground (arith, is_state_refl t.from)

abbrev Sound : Bool → RecordState → List Transition → Type 0
Sound has c es = (has ≡ false) ⊎ ((start : RecordState) × (es ≢ []) × Walk start es c)

abbrev snap_of : Uuid → Bool → RecordState → List Transition → RecordSnapshot
snap_of id has c es = record { record_id = id; has_state = has; current_state = c; entries = es }

complete-Sound :
    (id : Uuid) (has : Bool) (c : RecordState) (es : List Transition)
    → trail_complete (snap_of id has c es) ≡ true
    → Sound has c es
unfolding trail_complete
complete-Sound id false c es h = inl refl
complete-Sound id true c [] h = cc
complete-Sound id true c (t ∷ ts) h =
    let ended : is_state (last_entry t ts).to c ≡ true = ground arith in
    let free : first_fault 0 none (t ∷ ts) ≡ none = ground arith in
    let walk = fault-Walk 0 t.from (t ∷ ts) (sym (first-free t ts) ∙ free) in
    let at_end : ends t.to ts ≡ c = ends-last t ts ∙ is_state→eq (last_entry t ts).to c ended in
    inr (t.from, (λ e. cc), rw at_end at walk)

Sound-complete :
    (id : Uuid) (has : Bool) (c : RecordState) (es : List Transition)
    → Sound has c es
    → trail_complete (snap_of id has c es) ≡ true
unfolding trail_complete
Sound-complete id has c es (inl p) = ground arith
Sound-complete id has c [] (inr (start, ne, w)) = absurd (ne refl)
Sound-complete id has c (t ∷ ts) (inr (start, ne, w)) =
    let free : first_fault 0 none (t ∷ ts) ≡ none =
      first-free t ts ∙ Walk-fault 0 t.from c (t ∷ ts) (refl, w.1, w.2) in
    let at_end : (last_entry t ts).to ≡ c = sym (ends-last t ts) ∙ Walk-ends t.to c ts w.2 in
    let ended : is_state (last_entry t ts).to c ≡ true = rw at_end (is_state_refl c) in
    ground (arith, free, ended)

-- The verifier calls a trail complete exactly when the record has no state yet, or its entries
-- are a non-empty walk along allowed edges, from some state, that ends in the current state.
pub trail_complete_iff :
    (snap : RecordSnapshot)
    → (trail_complete snap ≡ true) ↔ (
        (snap.has_state ≡ false)
        ⊎ ((start : RecordState) × (snap.entries ≢ [])
            × Walk start snap.entries snap.current_state))
trail_complete_iff snap = (
  complete-Sound snap.record_id snap.has_state snap.current_state snap.entries,
  Sound-complete snap.record_id snap.has_state snap.current_state snap.entries,
)
