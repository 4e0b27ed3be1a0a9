-- ===== src/Runner/Lifecycle.antt =====
-- crates/runner/src/process.rs: how a process ends, as its reaper and its killers record it; and the
-- status that the server (crates/server/src/mcp.rs) makes of it, with the invariants that
-- crates/domain/src/process.rs states of a status.
use mathlib.Core.Option
use code_space.Prelude.{
  ℕ, ℤ, String, Bool, true, false, Option, none, some, ltb, ◌&&◌, if◌then◌else◌, is_none, is_some,
}
use code_space.Domain.Patch.{CoordinationHint}
use code_space.Records.Types.{ProcessTermination, signaled}
use code_space.Runner.Output.{OutputBuf}

pub data ProcessState : Type 0 where
  running exited unknown : ProcessState

pub data LostReason : Type 0 where
  ring_overflow retention_expired runner_lost host_rebooted : LostReason

pub record LifecycleSnapshot : Type 0 where
  pub state : ProcessState
  pub exit_code : Option ℤ
  pub termination : Option ProcessTermination
  pub signal : Option ℤ

pub data KillIntent : Type 0 where
  timeout terminated : KillIntent

pub record Lifecycle : Type 0 where
  pub finished : Bool
  pub exited : Bool
  pub kill_intent : Option KillIntent
  pub snapshot : LifecycleSnapshot

abbrev pub new_lifecycle : Lifecycle
new_lifecycle = record {
  finished = false;
  exited = false;
  kill_intent = none;
  snapshot = record { state = running; exit_code = none; termination = none; signal = none };
}

abbrev pub or_intent : Option KillIntent → KillIntent → Option KillIntent
or_intent none intent = some intent
or_intent (some first) intent = some first

unfoldable pub note_kill : KillIntent → Lifecycle → Lifecycle
note_kill intent life = record life { kill_intent = or_intent life.kill_intent intent }

abbrev pub ended_as : ProcessTermination → Option ℤ → Option ℤ → LifecycleSnapshot
ended_as termination code signal = record {
  state = ProcessState.exited;
  exit_code = code;
  termination = some termination;
  signal = signal;
}

abbrev pub intended : KillIntent → ProcessTermination
intended timeout = ProcessTermination.timeout
intended terminated = ProcessTermination.terminated

abbrev pub waited : Option KillIntent → Option ℤ → Option ℤ → LifecycleSnapshot
waited (some intent) code signal = ended_as (intended intent) none none
waited none code (some signal) = ended_as signaled none (some signal)
waited none code none = ended_as ProcessTermination.exited code none

unfoldable pub finish_wait : Option ℤ → Option ℤ → Lifecycle → Lifecycle
finish_wait code signal life =
    if life.finished
    then life
    else record life { finished = true; snapshot = waited life.kill_intent code signal }

abbrev pub lost_termination : Option KillIntent → ProcessTermination
lost_termination (some intent) = intended intent
lost_termination none = ProcessTermination.unknown

unfoldable pub finish_lost : Lifecycle → Lifecycle
finish_lost life = if life.finished then life else record life {
  finished = true;
  snapshot = ended_as (lost_termination life.kill_intent) none none;
}

pub record ProcessSignal : Type 0 where
  pub number : ℤ
  pub name : Option String

pub record RunnerProcessStatus : Type 0 where
  pub process_id : String
  pub state : ProcessState
  pub exit_code : Option ℤ
  pub termination : Option ProcessTermination
  pub signal : Option ProcessSignal
  pub output_total : ℕ
  pub output_retained_from : ℕ
  pub eof : Bool

-- `slot_status`; `process_signal` finds the name of a signal number of the host.
unfoldable pub slot_status :
    (ℤ → ProcessSignal) → String → Lifecycle → OutputBuf → RunnerProcessStatus
slot_status process_signal id life out = record {
  process_id = id;
  state = life.snapshot.state;
  exit_code = life.snapshot.exit_code;
  termination = life.snapshot.termination;
  signal = Option.map process_signal life.snapshot.signal;
  output_total = out.total;
  output_retained_from = out.dropped;
  eof = out.eof;
}

pub record ProcessStatusResult : Type 0 where
  pub process_id : String
  pub state : ProcessState
  pub exit_code : Option ℤ
  pub termination : Option ProcessTermination
  pub signal : Option ProcessSignal
  pub output_total : ℕ
  pub output_retained_from : ℕ
  pub eof : Bool
  pub lost_reason : Option LostReason
  pub coordination : Option CoordinationHint

abbrev pub lost_output : ℕ → Option LostReason
lost_output dropped = if ltb 0 dropped then some ring_overflow else none

-- What the server answers with, of a process that the runner holds.
unfoldable pub status_result : RunnerProcessStatus → Option CoordinationHint → ProcessStatusResult
status_result status hint = record {
  process_id = status.process_id;
  state = status.state;
  exit_code = status.exit_code;
  termination = status.termination;
  signal = status.signal;
  output_total = status.output_total;
  output_retained_from = status.output_retained_from;
  eof = status.eof;
  lost_reason = lost_output status.output_retained_from;
  coordination = hint;
}

abbrev pub may_overflow : Option LostReason → Bool
may_overflow none = true
may_overflow (some ring_overflow) = true
may_overflow (some _) = false

abbrev pub is_runner_lost : Option LostReason → Bool
is_runner_lost (some runner_lost) = true
is_runner_lost _ = false

abbrev pub exited_holds : ProcessStatusResult → Option ProcessTermination → Bool
exited_holds s none = false
exited_holds s (some ProcessTermination.exited) = is_none s.signal
exited_holds s (some signaled) = is_none s.exit_code && is_some s.signal
exited_holds s (some _) = is_none s.exit_code && is_none s.signal

abbrev pub holds_in : ProcessStatusResult → ProcessState → Bool
holds_in s running =
    is_none s.exit_code
    && (is_none s.termination && (is_none s.signal && may_overflow s.lost_reason))
holds_in s unknown =
    is_none s.exit_code
    && (is_none s.termination && (is_none s.signal && is_runner_lost s.lost_reason))
holds_in s ProcessState.exited = exited_holds s s.termination

unfoldable pub invariants_hold : ProcessStatusResult → Bool
invariants_hold s = holds_in s s.state
