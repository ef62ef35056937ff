-- ===== src/Audit/Watch.antt =====
-- services/audit/internal/server/watch.go: one round of the watcher. The stopping-rule count of the
-- response is always zero and so is its gauge.
use momotaro.Prelude.{ℕ, ◌||◌, ◌≡◌, ◌↔◌, arith, Option, none, some, ltb, if◌then◌else◌}
use momotaro.Audit.{VerifyResponse}

-- The gauges that the watcher sets.
pub record InvariantGauges : Type 0 where
  pub incomplete_audit_trails : ℕ
  pub impossible_transitions : ℕ

-- What a round logs.
pub data WatchLog : Type 0 where
  check_failed violation_detected check_clean : WatchLog

-- `checkOnce`, with the answer of VerifyInvariants, which is `none` for an error.
unfoldable pub check_once : Option VerifyResponse → InvariantGauges → InvariantGauges × WatchLog
check_once none g = (g, check_failed)
check_once (some resp) g = (
  record {
    incomplete_audit_trails = resp.incomplete_audit_trails;
    impossible_transitions = resp.impossible_transitions;
  },
  if ltb 0 resp.incomplete_audit_trails || ltb 0 resp.impossible_transitions
      then violation_detected
      else check_clean,
)

-- A round whose check was answered logs that it is clean exactly when both counts are zero.
pub check_once-log :
    (resp : VerifyResponse) (g : InvariantGauges)
    → ((check_once (some resp) g).1 ≡ check_clean)
      ↔ ((resp.incomplete_audit_trails ≡ 0) × (resp.impossible_transitions ≡ 0))
unfolding check_once
check_once-log resp g = (λ e. ground (arith, e), λ (a, b). ground (arith, a, b))
