-- ===== src/Records/Sound.antt =====
-- crates/store/src/processes.rs: every change keeps a record sound, and only moves it forward.
use code_space.Prelude.{
  ℕ, ℤ, ◌≡◌, refl, sym, ◌∙◌, true, false, Option, none, some, ◌⊎◌, inl, inr, Bool-cases, arith,
  is_some, is_none,
}
use code_space.Records.Types.{
  RunnerRef, ProcessPhase, dispatching, running, terminal, ProcessLoss, ProcessOutcome,
  ProcessTermination, ProcessEnd, ProcessRecord, RootProcess,
}
use code_space.Records.Changes.{
  is_dispatching, is_terminal, is_lost, start_phase, started, observed_output, ended,
  is_not_started, with_outcome, with_total,
}
use code_space.Records.Table.{lose, is_unended, is_open, waits}
use code_space.Records.Progress.{
  IsSound, IsKept, IsLater-progress, IsLater-refl, started-IsLater, observed_output-IsLater,
  ended-IsLater,
}

start_blank :
    (p : ProcessPhase) (o : Option ProcessOutcome)
    → (is_terminal p ≡ true) ⊎ (o ≡ none)
    → (is_terminal (start_phase p) ≡ true) ⊎ (o ≡ none)
start_blank terminal o h = inl refl
start_blank dispatching o (inl h) = inl h
start_blank dispatching o (inr h) = inr h
start_blank running o (inl h) = inl h
start_blank running o (inr h) = inr h
start_blank ProcessPhase.unknown o (inl h) = inl h
start_blank ProcessPhase.unknown o (inr h) = inr h

start_reason :
    (p : ProcessPhase) (l : Option ProcessLoss)
    → (is_lost p ≡ false) ⊎ (is_some l ≡ true)
    → (is_lost (start_phase p) ≡ false) ⊎ (is_some l ≡ true)
start_reason p l (inr h) = inr h
start_reason terminal l (inl h) = inl refl
start_reason dispatching l (inl h) = inl refl
start_reason running l (inl h) = inl refl
start_reason ProcessPhase.unknown l (inl h) = inl h

pub started-IsKept :
    (root : Option RootProcess) (d : Option ℕ) (a : ProcessRecord)
    → IsSound a
    → IsKept a (started root d a)
unfolding started
started-IsKept root d a h = (
  started-IsLater root d a,
  record {
    blank = start_blank a.phase a.outcome h.blank;
    reason = start_reason a.phase a.lost h.reason;
  },
)

pub observed_output-IsKept :
    (cursor : ℕ) (a : ProcessRecord) → IsSound a → IsKept a (observed_output cursor a)
unfolding observed_output
observed_output-IsKept cursor a h =
    (observed_output-IsLater cursor a, record { blank = h.blank; reason = h.reason })

IsSound-terminal : (r : ProcessRecord) → r.phase ≡ terminal → IsSound r
IsSound-terminal r h = record { blank = inl (rw h refl); reason = inl (rw h refl) }

with_outcome_phase :
    (o : Option ProcessOutcome) (t : Option ProcessTermination) (e s : Option ℤ) (r : ProcessRecord)
    → (with_outcome o t e s r).phase ≡ r.phase
with_outcome_phase none none e s r = refl
with_outcome_phase none (some t) e s r = refl
with_outcome_phase (some o) t e s r = refl

with_total_phase : (total : Option ℕ) (r : ProcessRecord) → (with_total total r).phase ≡ r.phase
unfolding observed_output
with_total_phase none r = refl
with_total_phase (some total) r = refl

ended-IsSound : (e : ProcessEnd) (a : ProcessRecord) → IsSound a → IsSound (ended e a)
unfolding ended
ended-IsSound ProcessEnd.not_started a h = elim (Bool-cases (is_dispatching a.phase)) [
  | inr t ↦ rw (ended, t) h
  | inl t ↦ rw (ended, t) (IsSound-terminal _ refl)
]
ended-IsSound (ProcessEnd.ended t e s total) a h = elim (Bool-cases (is_not_started a.outcome)) [
  | inl n ↦ rw (ended, n) h
  | inr n ↦
      rw (ended, n)
        (IsSound-terminal
          (with_total total (with_outcome a.outcome t e s (record a { phase = terminal })))
          (with_total_phase total (with_outcome a.outcome t e s (record a { phase = terminal }))
            ∙ with_outcome_phase a.outcome t e s (record a { phase = terminal })))
]

pub ended-IsKept : (e : ProcessEnd) (a : ProcessRecord) → IsSound a → IsKept a (ended e a)
ended-IsKept e a h = (ended-IsLater e a h, ended-IsSound e a h)

-- The time of the change is no part of what is kept.
pub touched :
    (a b : ProcessRecord) (now : ℕ) → IsKept a b → IsKept a (record b { updated_at_ms = now })
touched a b now (x, y) = (
  record {
    outcome_kept = x.outcome_kept;
    end_kept = x.end_kept;
    release_kept = x.release_kept;
    cursor = x.cursor;
    same_runner = x.same_runner;
    same_workspace = x.same_workspace;
    same_approval = x.same_approval;
  },
  record { blank = y.blank; reason = y.reason },
)

open_unended : (p : ProcessPhase) → is_open p ≡ true → is_terminal p ≡ false
open_unended dispatching h = refl
open_unended running h = refl
open_unended terminal h = sym h
open_unended ProcessPhase.unknown h = refl

none_lem : (o : Option ℕ) → is_none o ≡ true → o ≡ none
none_lem none h = refl
none_lem (some n) h = cc

pub lose-IsKept :
    (lost : RunnerRef) (loss : ProcessLoss) (now : ℕ) (a : ProcessRecord)
    → IsSound a
    → IsKept a (lose lost loss now a)
lose-IsKept lost loss now a h = elim (Bool-cases (is_unended lost a)) [
  | inr t ↦ rw t (IsLater-refl a, h)
  | inl t ↦ rw t (
      let unended : is_terminal a.phase ≡ false = open_unended a.phase (ground arith) in
      (
        IsLater-progress a ProcessPhase.unknown a.deadline_at_ms a.root a.output_cursor now
            (some loss) (inl unended) (omega arith),
        record { blank = elim h.blank [ inl x ↦ cc | inr e ↦ inr e ]; reason = inr refl },
      ))
]

pub release-IsKept :
    (now : ℕ) (a : ProcessRecord)
    → waits a ≡ true
    → IsSound a
    → IsKept a (record a { released_at_ms = some now; updated_at_ms = now })
release-IsKept now a w h = (
  record {
    outcome_kept = inr (refl, refl, refl);
    end_kept = (IsLater-refl a).end_kept;
    release_kept = inl (none_lem a.released_at_ms (ground arith));
    cursor = omega arith;
    same_runner = refl;
    same_workspace = refl;
    same_approval = refl;
  },
  record { blank = h.blank; reason = h.reason },
)
