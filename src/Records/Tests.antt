-- ===== src/Records/Tests.antt =====
-- Runs of the processes table, with the theorems at them.
use code_space.Prelude.{
  true, all, select, string_keyed, pos, String, ◌≡◌, refl, false, none, some, List, [], ◌∷◌, ◌⊎◌,
}
use code_space.Domain.Error.{ErrorBody, ok, err}
use code_space.Map.{find, keys_where, get, insert, remove, update, updated}
use code_space.Approvals.Types.{Row, Serde, into_record}
use code_space.Approvals.Methods.{fresh, create_approval, resolve_approval, take}
use code_space.Approvals.Settle.{mark_resuming}
use code_space.Approvals.Changes.{init, create, resolve, take_claim, step as approval_step}
use code_space.Domain.Approval.{exec_command, grant, parse}
use code_space.Records.Types.{
  RunnerRef, ProcessLoss, ProcessRecord, ProcessEnd, NewProcessRecord, RecordedParticipation,
  ProcessTermination, exited, runner_beq, parse_outcome, outcome_name, ProcessOutcome,
}
use code_space.Records.Changes.{awaits_release, ended, observed_output}
use code_space.Records.Table.{
  Table, Records, dispatched, record_dispatch, change_record, record_end, record_beq,
  record_runner_lost,
}
use code_space.Records.Progress.{IsLater}
use code_space.Records.Runs.{Call, dispatches, runs, ends, reads, releases, approves, step, run}
use code_space.Records.Lost.{record_runner_lost_waits}
use code_space.Records.Histories.{empty, run-run-IsLater, record_dispatch_atomic}

abbrev digest : List String → String
digest argv = "sha256:00"

abbrev runner : RunnerRef
runner = record { boot_id = some "boot"; pid = 7; started_at_ms = 100; nonce = "n1" }

abbrev another : RunnerRef
another = record runner { nonce = "n2" }

abbrev asked : NewProcessRecord
asked = record {
  process_id = "p1";
  runner = runner;
  controller_epoch = some 1;
  workspace_id = "ws";
  approval_id = none;
  attempt_id = none;
  participation = RecordedParticipation.off;
  tty = false;
  argv = "true" ∷ [];
}

abbrev resumed : NewProcessRecord
resumed = record asked { approval_id = some "appr-1" }

abbrev exit : ProcessEnd
exit = ProcessEnd.ended (some exited) (some (pos 0)) none (some 12)

abbrev serde : Serde
serde = record { object = λ fields. "{}"; to_string = λ p. "{}"; from_str = λ t. none }

abbrev ended_record : ProcessRecord
ended_record = record (dispatched digest resumed 5) {
  phase = code_space.Records.Types.terminal;
  outcome = some (ProcessOutcome.ended exited);
  exit_code = some (pos 0);
  output_cursor = some 12;
  updated_at_ms = 9;
}

-- An execution that resumes a granted approval, and its end.
abbrev past : List Call
past =
    approves (create "ws" exec_command "fp" "{}" "appr-1")
    ∷ approves (resolve "appr-1" grant 2)
    ∷ approves (take_claim "appr-1")
    ∷ dispatches resumed 5
    ∷ ends runner "p1" exit 9
    ∷ []

abbrev later : List Call
later = runs runner "p1" none (some 50) 10 ∷ ends runner "p1" ProcessEnd.not_started 11 ∷ []

run-run-IsLater_example :
    (b : ProcessRecord) × (get "p1" (run digest serde later (run digest serde past empty)).processes
      ≡ some b)
    × IsLater ended_record b
unfolding run step record_dispatch record_end change_record update updated get insert remove ended
    observed_output runner_beq record_beq approval_step create_approval resolve_approval take find
    keys_where select parse into_record mark_resuming
run-run-IsLater_example = run-run-IsLater digest serde past later "p1" ended_record refl

-- The approval that is resumed is queued.
abbrev store : Records
store = record {
  approvals = record init {
    approvals =
        ("appr-1", record (fresh "ws" exec_command "fp" "{}" "appr-1") { state = "queued" }) ∷ [];
  };
  processes = [];
}

record_dispatch_atomic_example :
    ((e : ErrorBody) × (record_dispatch digest resumed 5 store ≡ (store, err e)))
    ⊎ (((record_dispatch digest resumed 5 store).1 ≡ ok tt)
        × (get "p1" (record_dispatch digest resumed 5 store).0.processes
            ≡ some (dispatched digest resumed 5))
        × ((row : Row) × (get "appr-1"
                (record_dispatch digest resumed 5 store).0.approvals.approvals
              ≡ some row)
            × (row.state ≡ "resuming")))
record_dispatch_atomic_example = record_dispatch_atomic digest resumed 5 store "appr-1" refl

abbrev table : Table
table = ("p1", dispatched digest asked 5) ∷ []

record_runner_lost_waits_example :
    (b : ProcessRecord) × (get "p1"
        (run digest serde (reads runner "p1" 30 11 ∷ releases "p2" 12 ∷ []) (record empty {
          processes = (record_runner_lost runner ProcessLoss.runner_lost 10 table).0;
        })).processes
      ≡ some b)
    × (awaits_release b ≡ true)
unfolding get runner_beq all
record_runner_lost_waits_example =
    record_runner_lost_waits digest serde runner ProcessLoss.runner_lost 10
      (record empty { processes = table }) "p1" (dispatched digest asked 5)
      (reads runner "p1" 30 11 ∷ releases "p2" 12 ∷ []) refl refl refl refl refl
