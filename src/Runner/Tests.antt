-- ===== src/Runner/Tests.antt =====
-- A small runner and what happens to it, with the theorems at it.
use code_space.Prelude.{
  ℕ, ℤ, pos, String, ◌≡◌, ◌⊎◌, refl, true, false, none, some, List, [], ◌∷◌, arith, string_keyed,
}
use code_space.Domain.Error.{ErrorCode, new, ok}
use code_space.Runner.Output.{empty_output, read_output}
use code_space.Runner.Ring.{
  OutputEvent, arrives, times_out, closes, pumped, joined, timed_after, closed_after,
  read_output-pumped,
}
use code_space.Runner.Lifecycle.{
  ProcessState, LostReason, ProcessSignal, RunnerProcessStatus, timeout, new_lifecycle, slot_status,
  status_result, invariants_hold,
}
use code_space.Runner.Ends.{killed, reaped, reports, status_result-invariants_hold}
use code_space.Runner.Slots.{Slot, Runner, dropped, held, fill, recall, live_count}
use code_space.Runner.Limit.{Event, reserves, fills, ends, happens, IsWithin, happens-IsWithin}
use code_space.Runner.Remembered.{recall-fill}
use code_space.Map.{get}
use code_space.Records.Types.{ProcessRecord, ProcessPhase, RecordedParticipation, runner_beq}
use code_space.Runner.Recorded.{ProcessRecords, execution, recorded, recorded_status}
use code_space.Runner.Answers.{recorded_status-invariants_hold}

abbrev text : List ℕ → String
text bytes = "text"

-- A process that wrote five bytes, the last three after its time limit.
abbrev written : List OutputEvent
written = arrives (104 ∷ 101 ∷ []) ∷ times_out ∷ arrives (108 ∷ 108 ∷ 111 ∷ []) ∷ closes ∷ []

read_output-pumped_example :
    read_output text "p1" 1 (pumped 3 written empty_output)
    ≡ ok (record {
      process_id = "p1";
      cursor = 5;
      chunk = "text";
      eof = true;
      output_lost = true;
      retained_from = 2;
    })
unfolding joined timed_after closed_after
read_output-pumped_example = read_output-pumped 3 text "p1" written 1 (omega arith) (omega arith)

abbrev signal_of : ℤ → ProcessSignal
signal_of n = record { number = n; name = none }

status_result-invariants_hold_example :
    invariants_hold (
      status_result
        (slot_status signal_of "p1"
          (reports (killed timeout ∷ reaped none (some (pos 9)) ∷ []) new_lifecycle)
          empty_output)
        none)
    ≡ true
status_result-invariants_hold_example =
    status_result-invariants_hold signal_of "p1" (killed timeout ∷ reaped none (some (pos 9)) ∷ [])
      empty_output none

abbrev slot : Slot
slot = record {
  workspace_id = "ws";
  released = false;
  output = empty_output;
  lifecycle = new_lifecycle;
  completed_at = none;
  acknowledged = none;
}

abbrev runner : Runner
runner = record {
  inner = ("p0", slot) ∷ [];
  reserved = [];
  memory = record { keep = some 64; received = [] };
  limit = 2;
  retention = record { ttl = 900; max_completed = 64 };
}

abbrev events : List Event
events = reserves 5 "p1" ∷ reserves 6 "p2" ∷ fills 7 "p1" slot ∷ ends 8 "p0" ∷ []

happens-IsWithin_example : IsWithin (happens signal_of events runner)
unfolding live_count
happens-IsWithin_example = happens-IsWithin signal_of events runner (omega arith)

recall-fill_example :
    ((recall signal_of 20 "p1" (happens signal_of events (fill 7 "p1" slot runner))).1 ≡ dropped)
    ⊎ ((workspace_id : String) × (status : RunnerProcessStatus) × ((recall signal_of 20 "p1"
            (happens signal_of events (fill 7 "p1" slot runner))).1
          ≡ held workspace_id status))
recall-fill_example = recall-fill signal_of 7 20 "p1" slot events runner refl

-- A process of the runner that the gateway lost, in a record that says that it runs.
abbrev gone : ProcessRecord
gone = record {
  process_id = "p1";
  runner = record { boot_id = some "boot"; pid = 7; started_at_ms = 100; nonce = "n1" };
  controller_epoch = some 1;
  workspace_id = "ws";
  approval_id = none;
  attempt_id = none;
  participation = RecordedParticipation.off;
  tty = false;
  argv_digest = "sha256:00";
  phase = ProcessPhase.running;
  deadline_at_ms = none;
  root = none;
  outcome = none;
  exit_code = none;
  signal = none;
  output_cursor = some 12;
  created_at_ms = 5;
  updated_at_ms = 9;
  lost = none;
  released_at_ms = none;
}

abbrev records : ProcessRecords
records = record { runner = gone.runner; lost = true; processes = ("p1", gone) ∷ [] }

recorded_status-invariants_hold_example :
    invariants_hold (record {
      process_id = "p1";
      state = ProcessState.unknown;
      exit_code = none;
      termination = none;
      signal = none;
      output_total = 12;
      output_retained_from = 12;
      eof = true;
      lost_reason = some LostReason.runner_lost;
      coordination = none;
    })
    ≡ true
unfolding recorded recorded_status get runner_beq
recorded_status-invariants_hold_example =
    recorded_status-invariants_hold signal_of none records "p1"
      (execution (new ErrorCode.runner_disconnected "the Runner was lost"))
      (record {
        process_id = "p1";
        state = ProcessState.unknown;
        exit_code = none;
        termination = none;
        signal = none;
        output_total = 12;
        output_retained_from = 12;
        eof = true;
        lost_reason = some LostReason.runner_lost;
        coordination = none;
      })
      refl
