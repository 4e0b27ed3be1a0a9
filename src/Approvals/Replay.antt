-- ===== src/Approvals/Replay.antt =====
-- crates/store/src/approvals.rs: a resume that has ended is replayed.
use code_space.Prelude.{
  ℕ, suc, String, ◌≡◌, refl, true, false, some, ◌==◌, string_keyed, inl, inr, ◌&&◌, List, ==_refl,
}
use code_space.Domain.Error.{Result, ok, err}
use code_space.Domain.Approval.{OperationResumeResult}
use code_space.Map.{get, get-update}
use code_space.Approvals.Types.{ResumeClaim, Serde, Row, State}
use code_space.Approvals.Methods.{look, replay_consumed}
use code_space.Approvals.Settle.{
  claim_resume, finish_resume, finish_write, written, is_resumed, stays_queued, persisted,
}
use code_space.Approvals.Changes.{Call, run}
use code_space.Approvals.Steps.{is_resumed-cases}
use code_space.Approvals.Lifecycle.{run-closed}

abbrev pub replay : Result OperationResumeResult → ResumeClaim
replay (ok result) = ResumeClaim.replay_success result
replay (err e) = ResumeClaim.replay_error e

replay_consumed_written :
    (serde : Serde) (id : String) (result : Result OperationResumeResult)
    → serde.from_str (serde.to_string (persisted result)) ≡ some (persisted result)
    → replay_consumed serde id (some (serde.to_string (persisted result))) ≡ ok (replay result)
unfolding replay_consumed
replay_consumed_written serde id (ok r) back = rw (replay_consumed, back) refl
replay_consumed_written serde id (err e) back = rw (replay_consumed, back) refl

module _ (serde : Serde) (id : String) (result : Result OperationResumeResult) where
  finished : State → State
  finished s = (finish_resume serde (λ t. t) id result s).0

  finish_resume_row :
      (s : State) (row : Row)
      → get id s.approvals ≡ some row
      → is_resumed row ≡ true
      → (row.state == "queued" && stays_queued result) ≡ false
      → s.fail_next_finish ≡ false
      → get id (finished s).approvals ≡ some (written serde result row row)
  unfolding finished finish_resume finish_write
  finish_resume_row s row h r q f =
      let passed : (row.state == "granted") ≡ false = elim (is_resumed-cases row r) [
        | inl e ↦ rw e refl
        | inr e ↦ rw e refl
      ] in
      rw
        (finished, finish_resume, h, passed, q, f, finish_write, h, r, get-update, ==_refl id, h, r)
        refl

  -- A resume that ends, as a success or as a failure that does not leave it queued, is never run
  -- again: whatever is called afterwards, a claim replays its result. The JSON text of that result is
  -- read back as it was written, the flag of `fail_next_finish` is not set, and no other call comes
  -- between the two statements of `finish_resume`.
  pub claim_resume-finish_resume :
      (s : State) (row : Row) (calls : List Call) (others : ℕ → State → State) (fuel : ℕ)
      → serde.from_str (serde.to_string (persisted result)) ≡ some (persisted result)
      → get id s.approvals ≡ some row
      → is_resumed row ≡ true
      → (row.state == "queued" && stays_queued result) ≡ false
      → s.fail_next_finish ≡ false
      → claim_resume serde others
          (suc fuel)
          id
          (run serde calls (finish_resume serde (λ t. t) id result s).0)
        ≡ (run serde calls (finish_resume serde (λ t. t) id result s).0, some (ok (replay result)))
  unfolding claim_resume look finished
  claim_resume-finish_resume s row calls others fuel back h r q f =
      let last : get id (run serde calls (finished s)).approvals
          ≡ some (written serde result row row) =
        run-closed serde calls (finished s) id (written serde result row row)
          (finish_resume_row s row h r q f) refl in
      rw (look, last, replay_consumed_written serde id result back) refl
