-- ===== src/Records/Histories.antt =====
-- crates/store/src/processes.rs: the history of a record from an empty table on, and what
-- `record_dispatch` and the changes of another runner do.
use code_space.Prelude.{
  ℕ, String, ◌≡◌, refl, subst, false, Option, none, some, ◌⊎◌, inl, inr, Bool-cases, Option-cases,
  ◌==◌, ==_iff, ==_refl, string_keyed, List, [],
}
use code_space.Domain.Error.{ErrorBody, ErrorCode, new, ok, err}
use code_space.Map.{get, get-insert, get-update, updated}
use code_space.Approvals.Types.{Serde, State, Row, not_found, unknown_state}
use code_space.Approvals.Methods.{Outcome}
use code_space.Approvals.Settle.{mark_resuming}
use code_space.Approvals.Changes.{init}
use code_space.Records.Types.{
  RunnerRef, ProcessEnd, ProcessRecord, NewProcessRecord, RootProcess, runner_beq,
}
use code_space.Records.Table.{
  record_err, Table, Records, dispatched, mark_first, insert_dispatched, record_dispatch,
  change_record, record_running, record_end, record_output,
}
use code_space.Records.Progress.{IsLater, IsSound}
use code_space.Records.Runs.{Call, run, run-IsLater, run-IsSound, IsSoundAt}

abbrev pub empty : Records
empty = record { approvals = init; processes = [] }

sound_lem : (o : Option ProcessRecord) (a : ProcessRecord) → IsSoundAt o → o ≡ some a → IsSound a
sound_lem none a h e = cc
sound_lem (some b) a h e = let same : b ≡ a = cc in subst (λ x. IsSound x) same h

module _ (digest : List String → String) (serde : Serde) where
  -- A record that any calls made, those on the approvals included, from an empty store on is there
  -- after any further calls, and they only move it forward:
  -- how its execution ended and when it was released are recorded once, an ended record does not
  -- begin again, its output cursor does not fall, and its runner, workspace and approval stay.
  pub run-run-IsLater :
      (past later : List Call) (j : String) (a : ProcessRecord)
      → get j (run digest serde past empty).processes ≡ some a
      → (b : ProcessRecord) × (get j
            (run digest serde later (run digest serde past empty)).processes
          ≡ some b)
        × IsLater a b
  unfolding get
  run-run-IsLater past later j a h =
      run-IsLater digest serde later (run digest serde past empty) j a h (
        sound_lem (get j (run digest serde past empty).processes) a
          (run-IsSound digest serde past empty j tt) h)

module _ (digest : List String → String) where
  marked :
      (id : String) (s : State)
      → ((e : ErrorBody) × (mark_resuming id s ≡ (s, err e)))
        ⊎ (((mark_resuming id s).1 ≡ ok tt)
            × ((row : Row) × (get id (mark_resuming id s).0.approvals ≡ some row)
                × (row.state ≡ "resuming")))
  unfolding mark_resuming
  marked id s = elim (Option-cases (get id s.approvals)) [
    | inl e ↦ inl (not_found id, rw (mark_resuming, e) refl)
    | inr (row, e) ↦ elim (Bool-cases (row.state == "resuming")) [
      | inl t ↦ inr (
        rw (mark_resuming, e, t) refl,
        (row, rw (mark_resuming, e, t) e, (==_iff row.state "resuming").0 t),
      )
      | inr t ↦ elim (Bool-cases (row.state == "queued")) [
        | inr u ↦ inl (unknown_state row.state, rw (mark_resuming, e, t, u) refl)
        | inl u ↦ inr (
          rw (mark_resuming, e, t, u) refl,
          (
            record row { state = "resuming" },
            rw (mark_resuming, e, t, u, get-update, ==_refl id, e, u) refl,
            refl,
          ),
        )
      ]
    ]
  ]

  inserted :
      (n : NewProcessRecord) (now : ℕ) (s : Records) (id : String) (o : Outcome Unit)
      → ((e : ErrorBody) × (o ≡ (s.approvals, err e)))
        ⊎ ((o.1 ≡ ok tt)
            × ((row : Row) × (get id o.0.approvals ≡ some row) × (row.state ≡ "resuming")))
      → ((e : ErrorBody) × (insert_dispatched digest n now s o ≡ (s, err e)))
        ⊎ (((insert_dispatched digest n now s o).1 ≡ ok tt)
            × (get n.process_id (insert_dispatched digest n now s o).0.processes
                ≡ some (dispatched digest n now))
            × ((row : Row) × (get id (insert_dispatched digest n now s o).0.approvals.approvals
                  ≡ some row)
                × (row.state ≡ "resuming")))
  inserted n now s id (t, err e) h = inl (e, refl)
  inserted n now s id (t, ok u) (inl (e, h)) = cc
  inserted n now s id (t, ok u) (inr (h, row)) =
      elim (Option-cases (get n.process_id s.processes)) [
        | inr (a, e) ↦ inl (new ErrorCode.internal record_err, rw (insert_dispatched, e) refl)
        | inl e ↦ inr (
          rw (insert_dispatched, e) refl,
          rw (insert_dispatched, e, get-insert, ==_refl n.process_id) refl,
          rw (insert_dispatched, e) row,
        )
      ]

  -- Where an execution resumes an approval, either both are recorded, the execution as dispatching
  -- and the approval as resuming, or there is an error and nothing is recorded.
  pub record_dispatch_atomic :
      (n : NewProcessRecord) (now : ℕ) (s : Records) (id : String)
      → n.approval_id ≡ some id
      → ((e : ErrorBody) × (record_dispatch digest n now s ≡ (s, err e)))
        ⊎ (((record_dispatch digest n now s).1 ≡ ok tt)
            × (get n.process_id (record_dispatch digest n now s).0.processes
                ≡ some (dispatched digest n now))
            × ((row : Row) × (get id (record_dispatch digest n now s).0.approvals.approvals
                  ≡ some row)
                × (row.state ≡ "resuming")))
  unfolding record_dispatch
  record_dispatch_atomic n now s id h =
      let first : mark_first n.approval_id s.approvals ≡ mark_resuming id s.approvals = rw h refl in
      rw (record_dispatch, first)
        (inserted n now s id (mark_resuming id s.approvals) (marked id s.approvals))

  -- A record is not changed by what another runner reports of its process.
  change_record_other :
      (runner : RunnerRef) (id : String) (r : ProcessRecord) (root : Option RootProcess)
      (deadline : Option ℕ) (e : ProcessEnd) (cursor now : ℕ) (rows : Table)
      → get id rows ≡ some r
      → runner_beq r.runner runner ≡ false
      → (record_running runner id root deadline now rows ≡ (rows, false))
        × (record_end runner id e now rows ≡ (rows, false))
        × (record_output runner id cursor now rows ≡ (rows, false))
  unfolding record_running record_end record_output change_record updated
  change_record_other runner id r root d e cursor now rows h other = (
    rw (record_running, change_record, updated, h, other) refl,
    rw (record_end, change_record, updated, h, other) refl,
    rw (record_output, change_record, updated, h, other) refl,
  )
