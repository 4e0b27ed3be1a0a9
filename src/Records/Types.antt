-- ===== src/Records/Types.antt =====
-- crates/store/src/processes.rs: the record of an execution, and the names of its parts in the
-- database.
use code_space.Prelude.{
  ℕ, ℤ, String, ◌≡◌, refl, Bool, Option, none, some, List, ◌==◌, string_keyed, nat_keyed,
  option_keyed, option_beq, ◌&&◌, if◌then◌else◌, is_some,
}

-- `started_at_ms` and the other times are milliseconds since the Unix epoch.
pub record RunnerRef : Type 0 where
  pub boot_id : Option String
  pub pid : ℕ
  pub started_at_ms : ℕ
  pub nonce : String

pub data ProcessPhase : Type 0 where
  dispatching running terminal unknown : ProcessPhase

pub data ProcessLoss : Type 0 where
  runner_lost host_rebooted : ProcessLoss

pub data RecordedParticipation : Type 0 where
  off required : RecordedParticipation

pub data ProcessTermination : Type 0 where
  exited signaled timeout terminated unknown : ProcessTermination

pub record RootProcess : Type 0 where
  pub pid : ℕ
  pub started : Option String

pub data ProcessEnd : Type 0 where
  not_started : ProcessEnd
  ended : Option ProcessTermination → Option ℤ → Option ℤ → Option ℕ → ProcessEnd

pub data ProcessOutcome : Type 0 where
  not_started : ProcessOutcome
  ended : ProcessTermination → ProcessOutcome

pub record ProcessRecord : Type 0 where
  pub process_id : String
  pub runner : RunnerRef
  pub controller_epoch : Option ℕ
  pub workspace_id : String
  pub approval_id : Option String
  pub attempt_id : Option String
  pub participation : RecordedParticipation
  pub tty : Bool
  pub argv_digest : String
  pub phase : ProcessPhase
  pub deadline_at_ms : Option ℕ
  pub root : Option RootProcess
  pub outcome : Option ProcessOutcome
  pub exit_code : Option ℤ
  pub signal : Option ℤ
  pub output_cursor : Option ℕ
  pub created_at_ms : ℕ
  pub updated_at_ms : ℕ
  pub lost : Option ProcessLoss
  pub released_at_ms : Option ℕ

pub record NewProcessRecord : Type 0 where
  pub process_id : String
  pub runner : RunnerRef
  pub controller_epoch : Option ℕ
  pub workspace_id : String
  pub approval_id : Option String
  pub attempt_id : Option String
  pub participation : RecordedParticipation
  pub tty : Bool
  pub argv : List String

-- `as_str` and `parse` of each.
abbrev pub phase_name : ProcessPhase → String
phase_name dispatching = "dispatching"
phase_name running = "running"
phase_name terminal = "terminal"
phase_name ProcessPhase.unknown = "unknown"

unfoldable pub parse_phase : String → Option ProcessPhase
parse_phase raw =
    if raw == "dispatching"
    then some dispatching
    else if raw == "running"
    then some running
    else if raw == "terminal"
    then some terminal
    else if raw == "unknown"
    then some ProcessPhase.unknown
    else none

abbrev pub loss_name : ProcessLoss → String
loss_name runner_lost = "runner_lost"
loss_name host_rebooted = "host_rebooted"

unfoldable pub parse_loss : String → Option ProcessLoss
parse_loss raw =
    if raw == "runner_lost"
    then some runner_lost
    else if raw == "host_rebooted"
    then some host_rebooted
    else none

abbrev pub outcome_name : ProcessOutcome → String
outcome_name ProcessOutcome.not_started = "not_started"
outcome_name (ProcessOutcome.ended exited) = "exited"
outcome_name (ProcessOutcome.ended signaled) = "signaled"
outcome_name (ProcessOutcome.ended timeout) = "timeout"
outcome_name (ProcessOutcome.ended terminated) = "terminated"
outcome_name (ProcessOutcome.ended ProcessTermination.unknown) = "unknown"

unfoldable pub parse_outcome : String → Option ProcessOutcome
parse_outcome raw =
    if raw == "not_started"
    then some ProcessOutcome.not_started
    else if raw == "exited"
    then some (ProcessOutcome.ended exited)
    else if raw == "signaled"
    then some (ProcessOutcome.ended signaled)
    else if raw == "timeout"
    then some (ProcessOutcome.ended timeout)
    else if raw == "terminated"
    then some (ProcessOutcome.ended terminated)
    else if raw == "unknown"
    then some (ProcessOutcome.ended ProcessTermination.unknown)
    else none

pub parse_outcome-outcome_name : (o : ProcessOutcome) → parse_outcome (outcome_name o) ≡ some o
unfolding parse_outcome
parse_outcome-outcome_name ProcessOutcome.not_started = refl
parse_outcome-outcome_name (ProcessOutcome.ended exited) = refl
parse_outcome-outcome_name (ProcessOutcome.ended signaled) = refl
parse_outcome-outcome_name (ProcessOutcome.ended timeout) = refl
parse_outcome-outcome_name (ProcessOutcome.ended terminated) = refl
parse_outcome-outcome_name (ProcessOutcome.ended ProcessTermination.unknown) = refl

-- The derived equality of `RunnerRef`.
unfoldable pub runner_beq : RunnerRef → RunnerRef → Bool
runner_beq a b =
    option_beq a.boot_id b.boot_id
    && (a.pid == b.pid && (a.started_at_ms == b.started_at_ms && a.nonce == b.nonce))

-- `ProcessLoss::of`.
unfoldable pub loss_of : RunnerRef → Option String → ProcessLoss
loss_of lost none = runner_lost
loss_of lost (some now) = elim lost.boot_id [
  | none ↦ runner_lost
  | some then_boot ↦ if then_boot == now then runner_lost else host_rebooted
]

-- `RootProcess::is`.
unfoldable pub is_root : RootProcess → RootProcess → Bool
is_root a observed =
    a.pid == observed.pid && (is_some a.started && option_beq a.started observed.started)
