-- ===== src/Records/Table.antt =====
-- crates/store/src/processes.rs: the methods of `Store` on the processes table, with the time as an
-- argument.
use Prim.Native.String.{compare}
use Prim.Native.Nat.{Ordering}
use code_space.Prelude.{
  ℕ, String, Bool, true, false, not, Option, none, some, List, [], ◌∷◌, ◌==◌, string_keyed,
  nat_keyed, int_keyed, option_keyed, option_beq, ◌&&◌, ◌||◌, if◌then◌else◌, ltb, is_none,
}
use code_space.Domain.Error.{ErrorCode, new, Result, ok, err}
use code_space.Map.{Map, get, insert, update, updated, map_values, keys_where}
use code_space.Approvals.Types.{State}
use code_space.Approvals.Methods.{Outcome}
use code_space.Approvals.Settle.{mark_resuming}
use code_space.Records.Types.{
  RunnerRef, ProcessPhase, dispatching, running, ProcessLoss, ProcessOutcome, ProcessEnd,
  ProcessRecord, NewProcessRecord, RootProcess, phase_name, outcome_name, runner_beq,
}
use code_space.Records.Changes.{is_lost, started, ended, observed_output}

-- The processes table by its primary key.
abbrev pub Table : Type 0
Table = Map String ProcessRecord

-- The parts of the store that `record_dispatch` changes in one transaction.
pub record Records : Type 0 where
  pub approvals : State
  pub processes : Table

abbrev pub record_err : String
record_err = "process record: UNIQUE constraint failed: processes.process_id"

-- `digest` is the hash of the argv as a JSON array.
abbrev pub dispatched : (List String → String) → NewProcessRecord → ℕ → ProcessRecord
dispatched digest n now = record {
  process_id = n.process_id;
  runner = n.runner;
  controller_epoch = n.controller_epoch;
  workspace_id = n.workspace_id;
  approval_id = n.approval_id;
  attempt_id = n.attempt_id;
  participation = n.participation;
  tty = n.tty;
  argv_digest = digest n.argv;
  phase = dispatching;
  deadline_at_ms = none;
  root = none;
  outcome = none;
  exit_code = none;
  signal = none;
  output_cursor = none;
  created_at_ms = now;
  updated_at_ms = now;
  lost = none;
  released_at_ms = none;
}

abbrev pub mark_first : Option String → State → Outcome Unit
mark_first none s = (s, ok tt)
mark_first (some id) s = mark_resuming id s

-- The INSERT and the commit, after the approval was marked: where they fail the transaction is
-- rolled back to `before`.
abbrev pub insert_dispatched :
    (List String → String)
    → NewProcessRecord
    → ℕ
    → Records
    → Outcome Unit
    → Records × Result (Unit {0})
insert_dispatched digest n now before (s, err e) = (before, err e)
insert_dispatched digest n now before (s, ok u) = elim (get n.process_id before.processes) [
  | some taken ↦ (before, err (new ErrorCode.internal record_err))
  | none ↦ (
    record {
      approvals = s;
      processes = insert n.process_id (dispatched digest n now) before.processes;
    },
    ok tt,
  )
]

unfoldable pub record_dispatch :
    (List String → String) → NewProcessRecord → ℕ → Records → Records × Result (Unit {0})
record_dispatch digest n now s =
    insert_dispatched digest n now s (mark_first n.approval_id s.approvals)

-- The derived equality of `ProcessRecord`, on the fields that a change can touch.
abbrev pub outcome_beq : Option ProcessOutcome → Option ProcessOutcome → Bool
outcome_beq none none = true
outcome_beq (some a) (some b) = outcome_name a == outcome_name b
outcome_beq _ _ = false

abbrev pub root_beq : Option RootProcess → Option RootProcess → Bool
root_beq none none = true
root_beq (some a) (some b) = a.pid == b.pid && option_beq a.started b.started
root_beq _ _ = false

unfoldable pub record_beq : ProcessRecord → ProcessRecord → Bool
record_beq a b =
    (phase_name a.phase == phase_name b.phase)
    && (option_beq a.deadline_at_ms b.deadline_at_ms
        && (root_beq a.root b.root
            && (outcome_beq a.outcome b.outcome
                && (option_beq a.exit_code b.exit_code
                    && (option_beq a.signal b.signal
                        && option_beq a.output_cursor b.output_cursor)))))

-- `change_record`: of an execution that this runner was sent, where the change changes something.
abbrev pub may_change : RunnerRef → (ProcessRecord → ProcessRecord) → ProcessRecord → Bool
may_change runner change r = runner_beq r.runner runner && not (record_beq (change r) r)

unfoldable pub change_record :
    RunnerRef → String → (ProcessRecord → ProcessRecord) → ℕ → Table → Table × Bool
change_record runner id change now rows =
    if updated id (may_change runner change) rows
    then (
      update id (may_change runner change) (λ r. record (change r) { updated_at_ms = now }) rows,
      true,
    )
    else (rows, false)

unfoldable pub record_running :
    RunnerRef → String → Option RootProcess → Option ℕ → ℕ → Table → Table × Bool
record_running runner id root deadline now rows =
    change_record runner id (started root deadline) now rows

unfoldable pub record_end : RunnerRef → String → ProcessEnd → ℕ → Table → Table × Bool
record_end runner id e now rows = change_record runner id (ended e) now rows

unfoldable pub record_output : RunnerRef → String → ℕ → ℕ → Table → Table × Bool
record_output runner id cursor now rows = change_record runner id (observed_output cursor) now rows

-- `ORDER BY created_at_ms, process_id`.
abbrev pub comes_before : ℕ × String → ℕ × String → Bool
comes_before (m, a) (n, b) =
    ltb m n || (m == n && elim (compare a b) [ Ordering.gt ↦ false | _ ↦ true ])

abbrev pub insert_sorted : ℕ × String → List (ℕ × String) → List (ℕ × String)
insert_sorted x [] = x ∷ []
insert_sorted x (y ∷ ys) =
    let rest = insert_sorted x ys in if comes_before x y then x ∷ y ∷ ys else y ∷ rest

abbrev pub created_at : Option ProcessRecord → ℕ
created_at none = 0
created_at (some r) = r.created_at_ms

abbrev pub sorted : List String → Table → List (ℕ × String)
sorted [] rows = []
sorted (id ∷ ids) rows = insert_sorted (created_at (get id rows), id) (sorted ids rows)

abbrev pub names : List (ℕ × String) → List String
names [] = []
names (x ∷ xs) = x.1 ∷ names xs

abbrev pub is_open : ProcessPhase → Bool
is_open dispatching = true
is_open running = true
is_open _ = false

abbrev pub is_unended : RunnerRef → ProcessRecord → Bool
is_unended lost r = runner_beq r.runner lost && is_open r.phase

abbrev pub lose : RunnerRef → ProcessLoss → ℕ → ProcessRecord → ProcessRecord
lose lost loss now r =
    if is_unended lost r
    then record r { phase = ProcessPhase.unknown; lost = some loss; updated_at_ms = now }
    else r

unfoldable pub record_runner_lost : RunnerRef → ProcessLoss → ℕ → Table → Table × List String
record_runner_lost lost loss now rows =
    (map_values (lose lost loss now) rows, names (sorted (keys_where (is_unended lost) rows) rows))

abbrev pub waits : ProcessRecord → Bool
waits r = is_lost r.phase && is_none r.released_at_ms

unfoldable pub release_record : String → ℕ → Table → Table × Bool
release_record id now rows = (
  update id waits (λ r. record r { released_at_ms = some now; updated_at_ms = now }) rows,
  updated id waits rows,
)

-- The ids of `unsettled_records`.
abbrev pub is_unsettled : ProcessRecord → Bool
is_unsettled r =
    is_none r.released_at_ms && elim r.phase [ ProcessPhase.terminal ↦ false | _ ↦ true ]

unfoldable pub unsettled_records : Table → List String
unsettled_records rows = names (sorted (keys_where is_unsettled rows) rows)
