-- ===== src/Runner/Ends.antt =====
-- crates/runner/src/process.rs: sequences of reports on a process.
use code_space.Prelude.{
  ℕ, ℤ, String, ◌≡◌, refl, ap, ◌∙◌, Bool, true, Option, none, some, List, [], ◌∷◌, arith, inl, inr,
  ◌⊎◌, Bool-cases,
}
use code_space.Domain.Patch.{CoordinationHint}
use code_space.Runner.Output.{OutputBuf}
use code_space.Runner.Lifecycle.{
  KillIntent, timeout, terminated, may_overflow, Lifecycle, LifecycleSnapshot, new_lifecycle,
  note_kill, waited, finish_wait, finish_lost, ended_as, lost_termination, lost_output,
  ProcessSignal, slot_status, status_result, invariants_hold,
}

pub data Report : Type 0 where
  killed : KillIntent → Report
  reaped : Option ℤ → Option ℤ → Report
  lost : Report

unfoldable pub report : Report → Lifecycle → Lifecycle
report (killed intent) life = note_kill intent life
report (reaped code signal) life = finish_wait code signal life
report lost life = finish_lost life

unfoldable pub reports : List Report → Lifecycle → Lifecycle
unfolding report
reports [] life = life
reports (r ∷ rs) life = reports rs (report r life)

-- A snapshot is of a process that runs, or of one that ended in one way.
abbrev IsSnapshot : LifecycleSnapshot → Type 0
IsSnapshot snap =
    (snap ≡ new_lifecycle.snapshot)
    ⊎ (((intent : Option KillIntent) × (code : Option ℤ) × (signal : Option ℤ) × (snap
            ≡ waited intent code signal))
        ⊎ ((intent : Option KillIntent) × (snap ≡ ended_as (lost_termination intent) none none)))

report-IsSnapshot :
    (r : Report) (life : Lifecycle) → IsSnapshot life.snapshot → IsSnapshot (report r life).snapshot
unfolding report note_kill finish_wait finish_lost
report-IsSnapshot (killed intent) life h = h
report-IsSnapshot (reaped code signal) life h = elim (Bool-cases life.finished) [
  | inl e ↦ rw (finish_wait, e) h
  | inr e ↦ rw (finish_wait, e) (inr (inl (life.kill_intent, code, signal, refl)))
]
report-IsSnapshot lost life h = elim (Bool-cases life.finished) [
  | inl e ↦ rw (finish_lost, e) h
  | inr e ↦ rw (finish_lost, e) (inr (inr (life.kill_intent, refl)))
]

reports-IsSnapshot :
    (rs : List Report) (life : Lifecycle)
    → IsSnapshot life.snapshot
    → IsSnapshot (reports rs life).snapshot
unfolding reports
reports-IsSnapshot [] life h = h
reports-IsSnapshot (r ∷ rs) life h =
    reports-IsSnapshot rs (report r life) (report-IsSnapshot r life h)

-- Whatever is reported of a process, in whatever order, the status that the server answers with has
-- the invariants of a status.
pub status_result-invariants_hold :
    (process_signal : ℤ → ProcessSignal) (id : String) (rs : List Report) (out : OutputBuf)
    (hint : Option CoordinationHint)
    → invariants_hold
        (status_result (slot_status process_signal id (reports rs new_lifecycle) out) hint)
      ≡ true
unfolding invariants_hold status_result slot_status
status_result-invariants_hold process_signal id rs out hint =
    elim (reports-IsSnapshot rs new_lifecycle (inl refl)) [
      | inl e ↦ answer e (overflows out.dropped)
      | inr (inl (intent, code, signal, e)) ↦ answer e (waited_holds intent code signal)
      | inr (inr (intent, e)) ↦ answer e (lost_holds intent)
    ]
  where
    with_snapshot : LifecycleSnapshot → Bool
    with_snapshot snap = invariants_hold (
        status_result (slot_status process_signal id (record new_lifecycle { snapshot = snap }) out)
          hint)

    answer :
        {snap : LifecycleSnapshot}
        → (reports rs new_lifecycle).snapshot ≡ snap
        → with_snapshot snap ≡ true
        → with_snapshot (reports rs new_lifecycle).snapshot ≡ true
    answer e h = ap with_snapshot e ∙ h

    overflows : (n : ℕ) → may_overflow (lost_output n) ≡ true
    overflows n = ground arith

    waited_holds :
        (intent : Option KillIntent) (code signal : Option ℤ)
        → with_snapshot (waited intent code signal) ≡ true
    waited_holds (some timeout) code signal = refl
    waited_holds (some terminated) code signal = refl
    waited_holds none code none = refl
    waited_holds none code (some signal) = refl

    lost_holds :
        (intent : Option KillIntent)
        → with_snapshot (ended_as (lost_termination intent) none none) ≡ true
    lost_holds none = refl
    lost_holds (some timeout) = refl
    lost_holds (some terminated) = refl

-- The end of a process is recorded once: later reports leave it.
pub reports_final :
    (rs : List Report) (life : Lifecycle)
    → life.finished ≡ true
    → (reports rs life).snapshot ≡ life.snapshot
unfolding reports report note_kill finish_wait finish_lost
reports_final [] life h = refl
reports_final (killed intent ∷ rs) life h = reports_final rs (note_kill intent life) h
reports_final (reaped code signal ∷ rs) life h =
    let same : finish_wait code signal life ≡ life = ground (arith, h) in
    ap (λ l. (reports rs l).snapshot) same ∙ reports_final rs life h
reports_final (lost ∷ rs) life h =
    let same : finish_lost life ≡ life = ground (arith, h) in
    ap (λ l. (reports rs l).snapshot) same ∙ reports_final rs life h
