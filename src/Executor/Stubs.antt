-- ===== src/Executor/Stubs.antt =====
-- services/executor/internal/ports/cost.go and stub.go: the prices of the actions, and ports that
-- answer by the action and the number of the attempt.
use momotaro.Prelude.{ℕ, true, some, leb, if◌then◌else◌}
use momotaro.Prelude.Int.{ℤ, pos}
use momotaro.Proto.{Uuid, ActionType, Outcome}
use momotaro.Executor.{Channel, RecoveryAction, Ports}

abbrev pub retry_cost_paise : ℤ
retry_cost_paise = pos 25

abbrev pub sms_cost_paise : ℤ
sms_cost_paise = pos 25

abbrev pub whatsapp_cost_paise : ℤ
whatsapp_cost_paise = pos 14

unfoldable pub channel_cost_paise : Channel → ℤ
channel_cost_paise Channel.whatsapp = whatsapp_cost_paise
channel_cost_paise Channel.sms = sms_cost_paise

-- `StubRecovery.SimulateOutcome`: the first attempt succeeds, a later one fails.
unfoldable pub stub_outcome : Uuid → ActionType → ℕ → RecoveryAction
stub_outcome record_id action attempt_number =
    if leb attempt_number 1
    then record {
      outcome = Outcome.success;
      immediate = true;
      resolves_at = 0;
      failure_code = "";
      cost_paise = retry_cost_paise;
    }
    else record {
      outcome = Outcome.failure;
      immediate = true;
      resolves_at = 0;
      failure_code = "BANK_TIMEOUT";
      cost_paise = retry_cost_paise;
    }

unfoldable pub stub_ports : Ports
unfolding stub_outcome channel_cost_paise
stub_ports = record {
  simulate_outcome = λ record_id action n. some (stub_outcome record_id action n);
  simulate_send = λ record_id channel message.
      some (record { sent = true; cost_paise = channel_cost_paise channel });
}
