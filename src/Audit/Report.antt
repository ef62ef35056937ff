-- ===== src/Audit/Report.antt =====
-- What `VerifyInvariants` counts (verify.go).
use momotaro.Prelude.{ℕ, ◌+◌, ◌≤◌, ◌≡◌, refl, List, [], ◌∷◌, arith, length, if◌then◌else◌}
use momotaro.Proto.{Uuid}
use momotaro.Audit.{
  RecordSnapshot, VerifyResponse, TrailFault, Examples, trail_complete, verify_one, verify_from,
  verify_invariants, add_example, put, max_examples,
}

-- How many of the snapshots have a trail that is not complete.
abbrev pub faulty : List RecordSnapshot → ℕ
faulty [] = 0
faulty (s ∷ ss) = (if trail_complete s then 0 else 1) + faulty ss

length-put : (ex : Examples) (id : Uuid) (f : TrailFault) → length (put ex id f) ≤ length ex + 1
length-put [] id f = omega arith
length-put ((j, g) ∷ ex) id f = ground (arith, length-put ex id f)

length-add_example :
    (ex : Examples) (id : Uuid) (f : TrailFault)
    → length ex ≤ max_examples
    → length (add_example ex id f) ≤ max_examples
unfolding add_example
length-add_example ex id f h = ground (arith, length-put ex id f)

record Counts (r s : VerifyResponse) (n : ℕ) : Type 0 where
  same_checked : s.records_checked ≡ r.records_checked
  total :
      s.incomplete_audit_trails + s.impossible_transitions
      ≡ r.incomplete_audit_trails + r.impossible_transitions + n
  bounded : length r.examples ≤ max_examples → length s.examples ≤ max_examples

verify_one-Counts :
    (r : VerifyResponse) (s : RecordSnapshot)
    → Counts r (verify_one r s) (if trail_complete s then 0 else 1)
unfolding verify_one trail_complete
verify_one-Counts r s = grind (arith, length-add_example)

verify_from-Counts :
    (r : VerifyResponse) (ss : List RecordSnapshot) → Counts r (verify_from r ss) (faulty ss)
unfolding verify_from
verify_from-Counts r [] = record { same_checked = refl; total = omega arith; bounded = λ h. h }
verify_from-Counts r (s ∷ ss) =
    let one = verify_one-Counts r s in
    let more = verify_from-Counts (verify_one r s) ss in
    record {
      same_checked = omega (arith, one.same_checked, more.same_checked);
      total = omega (arith, one.total, more.total);
      bounded = λ h. more.bounded (one.bounded h);
    }

-- The report counts every snapshot as checked, its two fault counts add up to the number of
-- snapshots whose trail is not complete, and it holds at most twenty examples.
pub verify_invariants-counts :
    (ss : List RecordSnapshot)
    → let r = verify_invariants ss in
      (r.records_checked ≡ length ss)
      × (r.incomplete_audit_trails + r.impossible_transitions ≡ faulty ss)
      × (length r.examples ≤ max_examples)
unfolding verify_invariants
verify_invariants-counts ss =
    let all = verify_from-Counts _ ss in
    (all.same_checked, omega (arith, all.total), all.bounded (omega arith))
