-- ===== src/Records/Changes.antt =====
-- crates/store/src/processes.rs: what a record learns of its execution.
use code_space.Prelude.{
  ℕ, ℤ, Bool, true, false, Option, none, some, ltb, ◌&&◌, if◌then◌else◌, is_none,
}
use code_space.Records.Types.{
  ProcessPhase, dispatching, running, terminal, ProcessOutcome, ProcessTermination, ProcessEnd,
  ProcessRecord, RootProcess,
}

abbrev pub is_dispatching : ProcessPhase → Bool
is_dispatching dispatching = true
is_dispatching _ = false

abbrev pub is_terminal : ProcessPhase → Bool
is_terminal terminal = true
is_terminal _ = false

abbrev pub is_lost : ProcessPhase → Bool
is_lost ProcessPhase.unknown = true
is_lost _ = false

abbrev pub or_else {ℓ} : {A : Type ℓ} → Option A → Option A → Option A
or_else none b = b
or_else (some a) b = some a

abbrev pub start_phase : ProcessPhase → ProcessPhase
start_phase dispatching = running
start_phase p = p

unfoldable pub started : Option RootProcess → Option ℕ → ProcessRecord → ProcessRecord
started root deadline r = record r {
  phase = start_phase r.phase;
  root = or_else r.root root;
  deadline_at_ms = or_else r.deadline_at_ms deadline;
}

abbrev pub further : Option ℕ → ℕ → Option ℕ
further none cursor = some cursor
further (some seen) cursor = if ltb seen cursor then some cursor else some seen

unfoldable pub observed_output : ℕ → ProcessRecord → ProcessRecord
observed_output cursor r = record r { output_cursor = further r.output_cursor cursor }

abbrev pub is_not_started : Option ProcessOutcome → Bool
is_not_started (some ProcessOutcome.not_started) = true
is_not_started _ = false

-- How it ended is recorded once.
abbrev pub with_outcome :
    Option ProcessOutcome
    → Option ProcessTermination
    → Option ℤ
    → Option ℤ
    → ProcessRecord
    → ProcessRecord
with_outcome none (some t) exit_code signal r = record r {
  outcome = some (ProcessOutcome.ended t);
  exit_code = exit_code;
  signal = signal;
}
with_outcome _ _ exit_code signal r = r

abbrev pub with_total : Option ℕ → ProcessRecord → ProcessRecord
with_total none r = r
with_total (some total) r = observed_output total r

unfoldable pub ended : ProcessEnd → ProcessRecord → ProcessRecord
ended ProcessEnd.not_started r =
    if is_dispatching r.phase
    then record r { phase = terminal; outcome = some ProcessOutcome.not_started }
    else r
ended (ProcessEnd.ended termination exit_code signal output_total) r =
    if is_not_started r.outcome
    then r
    else with_total output_total
        (with_outcome r.outcome termination exit_code signal (record r { phase = terminal }))

unfoldable pub awaits_release : ProcessRecord → Bool
awaits_release r = is_lost r.phase && is_none r.released_at_ms
