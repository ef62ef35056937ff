-- ===== src/Audit.antt =====
-- services/audit/internal/server: the state machine (statemachine.go) and the verifier of audit
-- trails (verify.go). The texts of the reasons are kept as their arguments.
pub mod Trails
pub mod Report
pub mod Store
pub mod Watch
use momotaro.Prelude.{
  ℕ, suc, ◌+◌, ◌==◌, Bool, true, false, not, Option, none, some, List, [], ◌∷◌, leb, length, map,
  if◌then◌else◌,
}
use momotaro.Proto.{Uuid, RecordState, is_state}

pub record Transition : Type 0 where
  pub from : RecordState
  pub to : RecordState

unfoldable pub is_allowed_transition : RecordState → RecordState → Bool
is_allowed_transition RecordState.new RecordState.scoring = true
is_allowed_transition RecordState.new RecordState.escalated = true
is_allowed_transition RecordState.scoring RecordState.retry_scheduled = true
is_allowed_transition RecordState.scoring RecordState.nudge_scheduled = true
is_allowed_transition RecordState.scoring RecordState.closed_uneconomic = true
is_allowed_transition RecordState.scoring RecordState.escalated = true
is_allowed_transition RecordState.retry_scheduled RecordState.retrying = true
is_allowed_transition RecordState.retrying RecordState.recovered = true
is_allowed_transition RecordState.retrying RecordState.scoring = true
is_allowed_transition RecordState.retrying RecordState.escalated = true
is_allowed_transition RecordState.nudge_scheduled RecordState.nudged = true
is_allowed_transition RecordState.nudged RecordState.nudged = true
is_allowed_transition RecordState.nudged RecordState.recovered = true
is_allowed_transition RecordState.nudged RecordState.scoring = true
is_allowed_transition RecordState.nudged RecordState.escalated = true
is_allowed_transition _ _ = false

pub record RecordSnapshot : Type 0 where
  pub record_id : Uuid
  pub has_state : Bool
  pub current_state : RecordState
  pub entries : List Transition

pub data TrailFault : Type 0 where
  no_entries : RecordState → TrailFault
  wrong_last : RecordState → RecordState → TrailFault
  broken_link : ℕ → RecordState → RecordState → TrailFault
  invalid_edge : ℕ → RecordState → RecordState → TrailFault

abbrev pub last_entry : Transition → List Transition → Transition
last_entry t [] = t
last_entry t (u ∷ us) = last_entry u us

abbrev incomplete_entries : RecordState → List Transition → Option TrailFault
incomplete_entries state [] = some (TrailFault.no_entries state)
incomplete_entries state (t ∷ ts) =
    let last = last_entry t ts in
    if not (is_state last.to state) then some (TrailFault.wrong_last state last.to) else none

unfoldable pub incomplete_trail : RecordSnapshot → Option TrailFault
incomplete_trail snap = incomplete_entries snap.current_state snap.entries

abbrev link_fault : ℕ → Option RecordState → Transition → Option TrailFault
link_fault i none t = none
link_fault i (some prev) t =
    if not (is_state t.from prev) then some (TrailFault.broken_link i t.from prev) else none

-- The loop, at entry `i` with the previous entry's `to`.
unfoldable pub first_fault : ℕ → Option RecordState → List Transition → Option TrailFault
unfolding is_allowed_transition
first_fault i prev [] = none
first_fault i prev (t ∷ ts) =
    let rest = first_fault (i + 1) (some t.to) ts in
    elim (link_fault i prev t) [
      | some f ↦ some f
      | none ↦
          if not (is_allowed_transition t.from t.to)
          then some (TrailFault.invalid_edge i t.from t.to)
          else rest
    ]

unfoldable pub impossible_transition : RecordSnapshot → Option TrailFault
unfolding first_fault
impossible_transition snap = first_fault 0 none snap.entries

abbrev is_none : {A : Type 0} → Option A → Bool
is_none none = true
is_none (some _) = false

unfoldable pub trail_complete : RecordSnapshot → Bool
unfolding incomplete_trail impossible_transition
trail_complete snap =
    if not snap.has_state
    then true
    else if not (is_none (incomplete_trail snap))
    then false
    else if not (is_none (impossible_transition snap))
    then false
    else true

unfoldable pub snapshot_for : Uuid → RecordState → List Transition → RecordSnapshot
snapshot_for id state entries = record {
  record_id = id;
  has_state = not (is_state state RecordState.unspecified);
  current_state = state;
  entries = entries;
}

abbrev pub max_examples : ℕ
max_examples = 20

abbrev pub Examples : Type 0
Examples = List (Uuid × TrailFault)

abbrev put : Examples → Uuid → TrailFault → Examples
put [] id f = (id, f) ∷ []
put ((j, g) ∷ ex) id f = if j == id then (j, f) ∷ ex else (j, g) ∷ put ex id f

unfoldable pub add_example : Examples → Uuid → TrailFault → Examples
add_example ex id f = if leb max_examples (length ex) then ex else put ex id f

pub record VerifyResponse : Type 0 where
  pub records_checked : ℕ
  pub incomplete_audit_trails : ℕ
  pub impossible_transitions : ℕ
  pub examples : Examples

-- One round of the loop of `verifyInvariants`.
unfoldable pub verify_one : VerifyResponse → RecordSnapshot → VerifyResponse
unfolding incomplete_trail impossible_transition
verify_one r snap = if not snap.has_state then r else elim (incomplete_trail snap) [
  | some f ↦ record r {
    incomplete_audit_trails = r.incomplete_audit_trails + 1;
    examples = add_example r.examples snap.record_id f;
  }
  | none ↦ elim (impossible_transition snap) [
    | some f ↦ record r {
      impossible_transitions = r.impossible_transitions + 1;
      examples = add_example r.examples snap.record_id f;
    }
    | none ↦ r
  ]
]

verify_from : VerifyResponse → List RecordSnapshot → VerifyResponse
verify_from r [] = r
verify_from r (s ∷ ss) = verify_from (verify_one r s) ss

unfoldable pub verify_invariants : List RecordSnapshot → VerifyResponse
unfolding verify_from verify_one
verify_invariants ss =
    verify_from
      (record {
        records_checked = length ss;
        incomplete_audit_trails = 0;
        impossible_transitions = 0;
        examples = [];
      })
      ss
