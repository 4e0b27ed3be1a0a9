-- ===== src/Runner/Recorded.antt =====
-- crates/server/src/records.rs: what the server answers of a process from its record, when the runner does
-- not hold it any more or was lost; and crates/runner/src/api.rs: the errors of a runner.
use code_space.Prelude.{
  ℕ, ℤ, String, Bool, true, false, Option, none, some, string_keyed, if◌then◌else◌, ◌&&◌,
}
use code_space.Domain.Error.{ErrorBody, ErrorCode}
use code_space.Domain.Patch.{CoordinationHint}
use code_space.Map.{get}
use code_space.Records.Types.{
  RunnerRef, ProcessLoss, ProcessOutcome, ProcessTermination, signaled, ProcessRecord, loss_of,
  runner_beq,
}
use code_space.Records.Changes.{is_not_started, is_terminal}
use code_space.Records.Table.{Table}
use code_space.Runner.Lifecycle.{
  ProcessState, LostReason, runner_lost, host_rebooted, retention_expired, ProcessSignal,
  ProcessStatusResult,
}

pub data RunnerError : Type 0 where
  execution : ErrorBody → RunnerError
  transport_before_dispatch transport_ambiguous : String → RunnerError

-- The records of a gateway: its runner, whether it lost that, and the table.
pub record ProcessRecords : Type 0 where
  pub runner : RunnerRef
  pub lost : Bool
  pub processes : Table

pub record Recorded : Type 0 where
  pub of_process : ProcessRecord
  pub reason : LostReason

abbrev pub lost_reason_of : ProcessLoss → LostReason
lost_reason_of ProcessLoss.runner_lost = runner_lost
lost_reason_of ProcessLoss.host_rebooted = host_rebooted

-- Whether the records answer for this error: for a process that is not found, and for a runner that is
-- not connected once it was lost. `some true`: the runner was lost.
abbrev pub may_answer : Bool → RunnerError → Option Bool
may_answer lost (execution e) = elim e.code [
  | ErrorCode.process_not_found ↦ some false
  | ErrorCode.runner_disconnected ↦ if lost then some true else none
  | _ ↦ none
]
may_answer lost (transport_before_dispatch message) = none
may_answer lost (transport_ambiguous message) = none

abbrev pub retained_reason : ProcessLoss → LostReason
retained_reason ProcessLoss.host_rebooted = host_rebooted
retained_reason ProcessLoss.runner_lost = retention_expired

abbrev pub unlost_reason : Bool → Bool → ProcessLoss → Bool → Option LostReason
unlost_reason ours lost_runner since is_end =
    if ours && lost_runner
    then some runner_lost
    else if is_end
    then some (retained_reason since)
    else if ours
    then none
    else some (lost_reason_of since)

abbrev pub reason_of : Option ProcessLoss → Bool → Bool → ProcessLoss → Bool → Option LostReason
reason_of (some loss) ours lost_runner since is_end = some (lost_reason_of loss)
reason_of none ours lost_runner since is_end = unlost_reason ours lost_runner since is_end

abbrev pub recorded_as : ProcessRecord → Option LostReason → Option Recorded
recorded_as r none = none
recorded_as r (some reason) = some (record { of_process = r; reason = reason })

abbrev pub recorded_row : ProcessRecords → Bool → Option ProcessRecord → Option Recorded
recorded_row s lost_runner none = none
recorded_row s lost_runner (some r) =
    if is_not_started r.outcome
    then none
    else recorded_as r (
        reason_of r.lost (runner_beq r.runner s.runner) lost_runner
          (loss_of r.runner s.runner.boot_id) (is_terminal r.phase))

abbrev pub recorded_for : ProcessRecords → String → Option Bool → Option Recorded
recorded_for s id none = none
recorded_for s id (some lost_runner) = recorded_row s lost_runner (get id s.processes)

-- `ProcessRecords::recorded`.
unfoldable pub recorded : ProcessRecords → String → RunnerError → Option Recorded
recorded s id e = recorded_for s id (may_answer s.lost e)

abbrev pub or_zero : Option ℕ → ℕ
or_zero none = 0
or_zero (some n) = n

-- How an execution ended, as the tuple of its status says.
pub record RecordedEnd : Type 0 where
  pub state : ProcessState
  pub termination : Option ProcessTermination
  pub exit_code : Option ℤ
  pub signal : Option ProcessSignal

abbrev pub unknown_end : RecordedEnd
unknown_end = record {
  state = ProcessState.exited;
  termination = some ProcessTermination.unknown;
  exit_code = none;
  signal = none;
}

abbrev pub signaled_end : (ℤ → ProcessSignal) → Option ℤ → RecordedEnd
signaled_end process_signal none = unknown_end
signaled_end process_signal (some number) = record {
  state = ProcessState.exited;
  termination = some signaled;
  exit_code = none;
  signal = some (process_signal number);
}

abbrev pub terminated_end :
    (ℤ → ProcessSignal) → Option ℤ → Option ℤ → ProcessTermination → RecordedEnd
terminated_end process_signal exit_code signal ProcessTermination.exited = record {
  state = ProcessState.exited;
  termination = some ProcessTermination.exited;
  exit_code = exit_code;
  signal = none;
}
terminated_end process_signal exit_code signal signaled = signaled_end process_signal signal
terminated_end process_signal exit_code signal termination = record {
  state = ProcessState.exited;
  termination = some termination;
  exit_code = none;
  signal = none;
}

abbrev pub outcome_end :
    (ℤ → ProcessSignal) → Option ℤ → Option ℤ → Option ProcessOutcome → RecordedEnd
outcome_end process_signal exit_code signal (some (ProcessOutcome.ended termination)) =
    terminated_end process_signal exit_code signal termination
outcome_end process_signal exit_code signal _ = unknown_end

abbrev pub lost_end : LostReason → RecordedEnd
lost_end host_rebooted = unknown_end
lost_end _ = record {
  state = ProcessState.unknown;
  termination = none;
  exit_code = none;
  signal = none;
}

abbrev pub end_of : (ℤ → ProcessSignal) → Recorded → RecordedEnd
end_of process_signal r =
    if is_terminal r.of_process.phase
    then outcome_end process_signal r.of_process.exit_code r.of_process.signal r.of_process.outcome
    else lost_end r.reason

abbrev pub status_as : Recorded → RecordedEnd → ProcessStatusResult
status_as r e = record {
  process_id = r.of_process.process_id;
  state = e.state;
  exit_code = e.exit_code;
  termination = e.termination;
  signal = e.signal;
  output_total = or_zero r.of_process.output_cursor;
  output_retained_from = or_zero r.of_process.output_cursor;
  eof = true;
  lost_reason = some r.reason;
  coordination = none;
}

-- `Recorded::status`.
unfoldable pub recorded_status : (ℤ → ProcessSignal) → Recorded → ProcessStatusResult
recorded_status process_signal r = status_as r (end_of process_signal r)

-- What the handler of process_status answers, by what the runner answered: from its answer, or from the
-- records with the hint of the process.
abbrev pub answer_recorded :
    (ℤ → ProcessSignal) → Option CoordinationHint → Option Recorded → Option ProcessStatusResult
answer_recorded process_signal hint none = none
answer_recorded process_signal hint (some r) =
    some (record (recorded_status process_signal r) { coordination = hint })
