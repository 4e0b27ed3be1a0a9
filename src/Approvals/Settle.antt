-- ===== src/Approvals/Settle.antt =====
-- crates/store/src/approvals.rs: how a resume ends, and the methods that hold the connection more
-- than once, with what other calls do to the store in between.
use code_space.Prelude.{
  ℕ, zero, suc, ◌*◌, ◌+◌, String, Bool, true, false, Option, none, some, ◌==◌, string_keyed, ◌||◌,
  ◌&&◌, if◌then◌else◌,
}
use code_space.Domain.Error.{ErrorCode, Result, ok, err}
use code_space.Domain.Approval.{ApprovalState, parse, OperationResumeResult}
use code_space.Map.{get, update, updated}
use code_space.Approvals.Types.{
  ApprovalRecord, ResumeClaim, PersistedResume, Serde, Row, State, not_found, conflict,
  unknown_state, ambiguous, into_record, scrubbed_params, quoted,
}
use code_space.Approvals.Methods.{Outcome, is_in, mark_inflight, drop_guard, look, take}

-- `claim_resume`. What the other calls do while it holds no lock is `others`, at each round's three
-- gaps: before and after it marks the resume, and, where the guard was dropped for another round,
-- before the first look of that. The lock and the guard count as dropped at once: of the calls between,
-- only a mark reads the guards, and a refused one changes nothing. `none`: more rounds than the fuel.
abbrev pub claimed :
    Outcome (Option ResumeClaim)
    → (State → State × Option (Result ResumeClaim))
    → State × Option (Result ResumeClaim)
claimed (s, err e) again = (s, some (err e))
claimed (s, ok (some claim)) again = (s, some (ok claim))
claimed (s, ok none) again = again s

abbrev pub taken :
    (State → State)
    → Outcome String
    → (State → State × Option (Result ResumeClaim))
    → State × Option (Result ResumeClaim)
taken others (s, err e) again = (s, some (err e))
taken others (s, ok id) again = claimed (take id (others s)) again

abbrev pub looked :
    Result (Option ResumeClaim)
    → State
    → State × Option (Result ResumeClaim)
    → State × Option (Result ResumeClaim)
looked (err e) s next = (s, some (err e))
looked (ok (some claim)) s next = (s, some (ok claim))
looked (ok none) s next = next

unfoldable pub claim_resume :
    Serde → (ℕ → State → State) → ℕ → String → State → State × Option (Result ResumeClaim)
claim_resume serde others zero id s = (s, none)
claim_resume serde others (suc fuel) id s = looked (look serde id s) s (
    taken (others (3 * fuel + 1)) (mark_inflight id (others (3 * fuel + 2) s))
      (λ t. claim_resume serde others fuel id (others (3 * fuel) t)))

-- `finish_resume`. The errors that leave a queued approval queued.
unfoldable pub stays_queued : Result OperationResumeResult → Bool
stays_queued (ok result) = false
stays_queued (err e) = elim e.code [
  | ErrorCode.workspace_busy ↦ true
  | ErrorCode.resource_queue_full ↦ true
  | ErrorCode.recovery_pending ↦ true
  | ErrorCode.runner_reconnecting ↦ true
  | ErrorCode.runner_disconnected ↦ true
  | ErrorCode.stale_controller ↦ true
  | _ ↦ false
]

abbrev pub persisted : Result OperationResumeResult → PersistedResume
persisted (ok result) = PersistedResume.success result
persisted (err e) = PersistedResume.failed e

-- The operation of the patch that ran, for the ambiguous error.
patch_operation : Result OperationResumeResult → Option String
patch_operation (err e) = none
patch_operation (ok result) = elim result.patch [
  | none ↦ none
  | some patch ↦ some patch.operation_id
]

abbrev pub is_resumed : Row → Bool
is_resumed row = row.state == "queued" || row.state == "resuming"

abbrev pub written : Serde → Result OperationResumeResult → Row → Row → Row
written serde result row r = record r {
  state = "consumed";
  result_json = some (serde.to_string (persisted result));
  params_json = scrubbed_params serde row.tool row.workspace_id row.fingerprint;
}

unfoldable pub finish_write : Serde → String → Result OperationResumeResult → State → Outcome Unit
finish_write serde id result s = elim (get id s.approvals) [
  | none ↦ (s, err (not_found id))
  | some row ↦
      if is_resumed row
      then (
        record s { approvals = update id is_resumed (written serde result row) s.approvals },
        ok tt,
      )
      else (s, err (ambiguous id "resume result could not be persisted" none))
]

unfoldable pub finish_resume :
    Serde → (State → State) → String → Result OperationResumeResult → State → Outcome Unit
unfolding patch_operation
finish_resume serde others id result s = elim (get id s.approvals) [
  | none ↦ (s, err (not_found id))
  | some row ↦
      if row.state == "granted"
      then (s, ok tt)
      else if row.state == "queued" && stays_queued result
      then (s, ok tt)
      else if s.fail_next_finish
      then (
        record s { fail_next_finish = false },
        err (ambiguous id "resume result could not be persisted" (patch_operation result)),
      )
      else finish_write serde id result (others s)
]

unfoldable pub return_resume : String → State → Outcome Unit
return_resume id s =
    if updated id (is_in "resuming") s.approvals
    then (
      record s {
        approvals = update id (is_in "resuming") (λ r. record r { state = "granted" }) s.approvals;
      },
      ok tt,
    )
    else (s, err (conflict "approval is not being resumed"))

unfoldable pub mark_resuming : String → State → Outcome Unit
mark_resuming id s = elim (get id s.approvals) [
  | none ↦ (s, err (not_found id))
  | some row ↦
      if row.state == "resuming"
      then (s, ok tt)
      else if row.state == "queued"
      then (
        record s {
          approvals = update id (is_in "queued") (λ r. record r { state = "resuming" }) s.approvals;
        },
        ok tt,
      )
      else (s, err (unknown_state row.state))
]

-- `settle_interrupted_resume`: the guard is dropped on every way out.
after_guard {ℓ} : {A : Type ℓ} → String → A → Outcome Unit → State × Result A
after_guard id a (s, ok u) = (drop_guard id s, ok a)
after_guard id a (s, err e) = (drop_guard id s, err e)

settled :
    Serde → (State → State) → String → Option OperationResumeResult → State → State × Result Bool
unfolding after_guard
settled serde others id started s = elim (get id s.approvals) [
  | none ↦ (drop_guard id s, err (not_found id))
  | some row ↦
      if row.state == "resuming"
      then elim started [
        | some result ↦ after_guard id true (finish_resume serde others id (ok result) (others s))
        | none ↦ after_guard id true (return_resume id (others s))
      ]
      else (drop_guard id s, ok false)
]

guarded :
    Serde → (State → State) → Option OperationResumeResult → Outcome String → State × Result Bool
guarded serde others started (s, err e) = (s, err e)
guarded serde others started (s, ok id) = settled serde others id started (others s)

unfoldable pub settle_interrupted_resume :
    Serde → (State → State) → String → Option OperationResumeResult → State → State × Result Bool
unfolding guarded settled
settle_interrupted_resume serde others id started s =
    guarded serde others started (mark_inflight id s)

unfoldable pub fail_next_finish : State → State
fail_next_finish s = record s { fail_next_finish = true }

-- `approval`.
unfoldable pub approval : String → State → Result (Option ApprovalRecord)
approval id s = elim (get id s.approvals) [
  | none ↦ ok none
  | some row ↦ elim (into_record row) [ ok r ↦ ok (some r) | err e ↦ err e ]
]

unfoldable pub inspect_approval : String → State → Result (ApprovalState × String × Option String)
inspect_approval id s = elim (get id s.approvals) [
  | none ↦ err (not_found id)
  | some row ↦ elim (parse row.state) [
    | none ↦ err (conflict (quoted "unknown approval state `" row.state))
    | some st ↦ ok (st, row.params_json, row.result_json)
  ]
]
