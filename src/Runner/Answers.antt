-- ===== src/Runner/Answers.antt =====
-- crates/server/src/records.rs: a status that the records answer with has the invariants of a status.
use code_space.Prelude.{
  ◌⊎◌, ◌∙◌, subst, ℤ, String, ◌≡◌, refl, Bool, true, false, Option, none, some, inl, inr,
  Bool-cases, arith, string_keyed,
}
use code_space.Domain.Patch.{CoordinationHint}
use code_space.Map.{get}
use code_space.Records.Types.{
  ProcessLoss, ProcessOutcome, ProcessTermination, signaled, ProcessRecord, loss_of, runner_beq,
}
use code_space.Records.Changes.{is_terminal, is_not_started}
use code_space.Runner.Lifecycle.{
  ProcessState, holds_in, exited_holds, LostReason, runner_lost, host_rebooted, retention_expired,
  ring_overflow, ProcessSignal, ProcessStatusResult, invariants_hold,
}
use code_space.Runner.Recorded.{
  RunnerError, ProcessRecords, Recorded, lost_reason_of, reason_of, recorded_as, recorded_row,
  recorded_for, recorded, may_answer, recorded_status, lost_end, outcome_end, status_as,
  answer_recorded,
}

-- The reason of an answer for a process that has not ended, as far as its record says.
abbrev is_loss : LostReason → Bool
is_loss runner_lost = true
is_loss host_rebooted = true
is_loss _ = false

abbrev are_losses : Option LostReason → Bool
are_losses none = true
are_losses (some reason) = is_loss reason

lost_reason_is_loss : (loss : ProcessLoss) → is_loss (lost_reason_of loss) ≡ true
lost_reason_is_loss ProcessLoss.runner_lost = refl
lost_reason_is_loss ProcessLoss.host_rebooted = refl

reason_is_loss :
    (lost : Option ProcessLoss) (ours lost_runner : Bool) (since : ProcessLoss)
    → are_losses (reason_of lost ours lost_runner since false) ≡ true
reason_is_loss (some loss) ours lost_runner since = lost_reason_is_loss loss
reason_is_loss none true true since = refl
reason_is_loss none true false since = refl
reason_is_loss none false lost_runner since = lost_reason_is_loss since

-- The invariants do not read the hint.
exited_lem :
    (x : ProcessStatusResult) (hint : Option CoordinationHint) (o : Option ProcessTermination)
    → exited_holds (record x { coordination = hint }) o ≡ exited_holds x o
exited_lem x hint none = refl
exited_lem x hint (some ProcessTermination.exited) = refl
exited_lem x hint (some signaled) = refl
exited_lem x hint (some ProcessTermination.timeout) = refl
exited_lem x hint (some ProcessTermination.terminated) = refl
exited_lem x hint (some ProcessTermination.unknown) = refl

hint_lem :
    (x : ProcessStatusResult) (hint : Option CoordinationHint) (state : ProcessState)
    → holds_in (record x { coordination = hint }) state ≡ holds_in x state
hint_lem x hint ProcessState.running = refl
hint_lem x hint ProcessState.unknown = refl
hint_lem x hint ProcessState.exited = exited_lem x hint x.termination

module _ (process_signal : ℤ → ProcessSignal) where
  outcome_holds :
      (r : Recorded) (code signal : Option ℤ) (o : Option ProcessOutcome)
      → invariants_hold (status_as r (outcome_end process_signal code signal o)) ≡ true
  unfolding invariants_hold
  outcome_holds r code signal none = refl
  outcome_holds r code signal (some ProcessOutcome.not_started) = refl
  outcome_holds r code signal (some (ProcessOutcome.ended ProcessTermination.exited)) = refl
  outcome_holds r code none (some (ProcessOutcome.ended signaled)) = refl
  outcome_holds r code (some n) (some (ProcessOutcome.ended signaled)) = refl
  outcome_holds r code signal (some (ProcessOutcome.ended ProcessTermination.timeout)) = refl
  outcome_holds r code signal (some (ProcessOutcome.ended ProcessTermination.terminated)) = refl
  outcome_holds r code signal (some (ProcessOutcome.ended ProcessTermination.unknown)) = refl

  lost_holds :
      (r : ProcessRecord) (reason : LostReason)
      → is_loss reason ≡ true
      → invariants_hold (status_as (record { of_process = r; reason = reason }) (lost_end reason))
        ≡ true
  unfolding invariants_hold
  lost_holds r runner_lost h = refl
  lost_holds r host_rebooted h = refl
  lost_holds r retention_expired h = cc
  lost_holds r ring_overflow h = cc

  abbrev answers_hold : Option Recorded → Bool
  answers_hold none = true
  answers_hold (some r) = invariants_hold (recorded_status process_signal r)

  recorded_as_holds :
      (r : ProcessRecord) (o : Option LostReason)
      → (is_terminal r.phase ≡ true) ⊎ (are_losses o ≡ true)
      → answers_hold (recorded_as r o) ≡ true
  unfolding recorded_status
  recorded_as_holds r none h = refl
  recorded_as_holds r (some reason) h = elim (Bool-cases (is_terminal r.phase)) [
    | inl t ↦
        rw (recorded_status, t)
          (outcome_holds (record { of_process = r; reason = reason }) r.exit_code r.signal
            r.outcome)
    | inr t ↦ rw (recorded_status, t) (lost_holds r reason (ground arith))
  ]

  recorded_row_holds :
      (s : ProcessRecords) (lost_runner : Bool) (o : Option ProcessRecord)
      → answers_hold (recorded_row s lost_runner o) ≡ true
  recorded_row_holds s lost_runner none = refl
  recorded_row_holds s lost_runner (some r) = elim (Bool-cases (is_not_started r.outcome)) [
    | inl never ↦ rw never refl
    | inr sent ↦ rw sent (
        recorded_as_holds r _ (elim (Bool-cases (is_terminal r.phase)) [
          | inl t ↦ inl t
          | inr t ↦ inr (
              rw t (
                reason_is_loss r.lost (runner_beq r.runner s.runner) lost_runner
                  (loss_of r.runner s.runner.boot_id)))
        ]))
  ]

  recorded_for_holds :
      (s : ProcessRecords) (id : String) (o : Option Bool)
      → answers_hold (recorded_for s id o) ≡ true
  recorded_for_holds s id none = refl
  recorded_for_holds s id (some lost_runner) = recorded_row_holds s lost_runner (get id s.processes)

  answered_holds :
      (hint : Option CoordinationHint) (o : Option Recorded) (status : ProcessStatusResult)
      → answers_hold o ≡ true
      → answer_recorded process_signal hint o ≡ some status
      → invariants_hold status ≡ true
  unfolding invariants_hold
  answered_holds hint none status k h = cc
  answered_holds hint (some r) status k h =
      let same : record (recorded_status process_signal r) { coordination = hint } ≡ status = cc in
      subst (λ x. invariants_hold x ≡ true) same
        (hint_lem (recorded_status process_signal r) hint (recorded_status process_signal r).state
          ∙ k)

  -- Whatever the record of a process says, and whatever the runner's error, the status that the server
  -- answers with from the record, where it does, has the invariants of a status.
  pub recorded_status-invariants_hold :
      (hint : Option CoordinationHint) (s : ProcessRecords) (id : String) (e : RunnerError)
      (status : ProcessStatusResult)
      → answer_recorded process_signal hint (recorded s id e) ≡ some status
      → invariants_hold status ≡ true
  unfolding recorded invariants_hold
  recorded_status-invariants_hold hint s id e status h =
      answered_holds hint (recorded s id e) status (recorded_for_holds s id (may_answer s.lost e)) h
