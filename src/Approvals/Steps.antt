-- ===== src/Approvals/Steps.antt =====
-- crates/store/src/approvals.rs: what each method does to one row.
use code_space.Prelude.{
  ℕ, String, ◌≡◌, refl, sym, subst, Bool, true, false, Option, none, some, ◌==◌, string_keyed, inl,
  inr, ◌⊎◌, Bool-cases, Option-cases, if◌then◌else◌, arith, ◌||◌, ◌&&◌, any, ==_iff,
}
use code_space.Domain.Error.{Result, ok, err}
use code_space.Domain.Approval.{ApprovalDecision, ApprovalTargetTool, OperationResumeResult, parse}
use code_space.Map.{get, update, get-insert, find, updated}
use code_space.Approvals.Types.{
  Serde, Row, State, ResumeClaim, ApprovalRecord, matches, into_record,
}
use code_space.Approvals.Methods.{
  create_approval, resolve_approval, decided, is_in, mark_inflight, drop_guard, take, Outcome, held,
  fresh,
}
use code_space.Approvals.Settle.{
  finish_write, finish_resume, return_resume, mark_resuming, fail_next_finish, is_resumed,
  persisted, written, stays_queued,
}
use code_space.Approvals.Changes.{
  Call, create, resolve, mark, take_claim, release, give_back, dispatch, finish, write, fail_next,
  step, creates, Change, decide, queue, resume, return, consume, Moves, created, Moves-refl,
  Moves-update,
}

pub is_resumed-cases :
    (r : Row) → is_resumed r ≡ true → (r.state ≡ "queued") ⊎ (r.state ≡ "resuming")
is_resumed-cases r h = ground (arith, ==_iff r.state "queued", ==_iff r.state "resuming")

module _ (serde : Serde) (k : Option String) (j : String) where
  abbrev pub Keeps : State → State → Type 0
  Keeps s t = Moves serde k j s.approvals (get j s.approvals) (get j t.approvals)

  Keeps-refl : (s : State) → Keeps s s
  Keeps-refl s = Moves-refl serde k j s.approvals (get j s.approvals)

  if-Keeps :
      (s : State) (t : Bool) (x y : Outcome Unit)
      → Keeps s x.0
      → Keeps s y.0
      → Keeps s (if t then x else y).0
  if-Keeps s true x y hx hy = hx
  if-Keeps s false x y hx hy = hy

  create-Keeps :
      (workspace_id : String) (tool : ApprovalTargetTool) (fingerprint params_json id : String)
      (s : State)
      → k ≡ some id
      → Keeps s (create_approval workspace_id tool fingerprint params_json id s).0
  unfolding create_approval
  create-Keeps workspace_id tool fingerprint params_json id s h =
      elim (Option-cases (find (matches workspace_id fingerprint) s.approvals)) [
        | inr (row, e) ↦ rw (create_approval, e) (Keeps-refl s)
        | inl free ↦
            rw (create_approval, free)
              (elim (Option-cases (get id s.approvals)) [
                | inr (row, e) ↦ rw e (Keeps-refl s)
                | inl e ↦
                    rw
                      (
                        e,
                        get-insert id j (fresh workspace_id tool fingerprint params_json id)
                            s.approvals,
                      )
                      (elim (Bool-cases (id == j)) [
                        | inr t ↦ rw t (Keeps-refl s)
                        | inl t ↦
                            rw (t, sym ((==_iff id j).0 t), e)
                              (created workspace_id tool fingerprint params_json id h free)
                      ])
              ])
      ]

  resolve-Keeps :
      (id : String) (d : ApprovalDecision) (now : ℕ) (s : State)
      → Keeps s (resolve_approval serde id d now s).0
  unfolding resolve_approval
  resolve-Keeps id d now s = elim (Option-cases (get id s.approvals)) [
    | inl e ↦ rw (resolve_approval, e) (Keeps-refl s)
    | inr (row, e) ↦
        rw (resolve_approval, e)
          (elim (Option-cases (parse row.state)) [
            | inl e ↦ rw e (Keeps-refl s)
            | inr (st, e) ↦ rw e (elim (Bool-cases (row.state == "pending")) [
              | inr t ↦ rw t (Keeps-refl s)
              | inl t ↦ rw t (
                  Moves-update serde k j id j (is_in "pending") (decided serde d now) s.approvals
                    (λ r e h. decide r d now ((==_iff r.state "pending").0 h)))
            ])
          ])
  ]

  held-Keeps :
      (claim : ApprovalRecord → String → ResumeClaim) (id : String) (r : Result ApprovalRecord)
      (s t : State)
      → Keeps s t
      → Keeps s (held claim id t r).0
  unfolding drop_guard
  held-Keeps claim id (ok r) s t h = h
  held-Keeps claim id (err e) s t h = h

  take-Keeps : (id : String) (s : State) → Keeps s (take id s).0
  unfolding take drop_guard
  take-Keeps id s = elim (Option-cases (get id s.approvals)) [
    | inl e ↦ rw (take, e) (Keeps-refl s)
    | inr (row, e) ↦
        rw (take, e)
          (elim (Bool-cases (row.state == "granted")) [
            | inl t ↦ rw t (
                held-Keeps ResumeClaim.execute id (into_record row) s
                  (record s {
                    approvals =
                        update id (is_in "granted") (λ r. record r { state = "queued" })
                          s.approvals;
                  })
                  (Moves-update serde k j id j (is_in "granted")
                    (λ r. record r { state = "queued" }) s.approvals
                    (λ r e h. queue r ((==_iff r.state "granted").0 h))))
            | inr t ↦ rw t (elim (Bool-cases (row.state == "queued")) [
              | inl t ↦
                  rw t (held-Keeps ResumeClaim.execute id (into_record row) s s (Keeps-refl s))
              | inr t ↦ rw t (elim (Bool-cases (row.state == "resuming")) [
                | inl t ↦
                    rw t (held-Keeps ResumeClaim.reconcile id (into_record row) s s (Keeps-refl s))
                | inr t ↦
                    rw t
                      (elim (Bool-cases (
                        row.state == "consumed"
                        || (row.state == "pending" || row.state == "denied"))) [
                          | inl t ↦ rw t (Keeps-refl s)
                          | inr t ↦ rw t (Keeps-refl s)
                        ])
              ])
            ])
          ])
  ]

  return-Keeps : (id : String) (s : State) → Keeps s (return_resume id s).0
  unfolding return_resume
  return-Keeps id s = elim (Bool-cases (updated id (is_in "resuming") s.approvals)) [
    | inr t ↦ rw t (Keeps-refl s)
    | inl t ↦ rw t (
        Moves-update serde k j id j (is_in "resuming") (λ r. record r { state = "granted" })
          s.approvals (λ r e h. return r ((==_iff r.state "resuming").0 h)))
  ]

  mark_resuming-Keeps : (id : String) (s : State) → Keeps s (mark_resuming id s).0
  unfolding mark_resuming
  mark_resuming-Keeps id s = elim (Option-cases (get id s.approvals)) [
    | inl e ↦ rw (mark_resuming, e) (Keeps-refl s)
    | inr (row, e) ↦
        rw (mark_resuming, e)
          (elim (Bool-cases (row.state == "resuming")) [
            | inl t ↦ rw t (Keeps-refl s)
            | inr t ↦ rw t (elim (Bool-cases (row.state == "queued")) [
              | inr t ↦ rw t (Keeps-refl s)
              | inl t ↦ rw t (
                  Moves-update serde k j id j (is_in "queued")
                    (λ r. record r { state = "resuming" }) s.approvals
                    (λ r e h. resume r ((==_iff r.state "queued").0 h)))
            ])
          ])
  ]

  finish_write-Keeps :
      (id : String) (result : Result OperationResumeResult) (s : State)
      → Keeps s (finish_write serde id result s).0
  unfolding finish_write
  finish_write-Keeps id result s = elim (Option-cases (get id s.approvals)) [
    | inl e ↦ rw (finish_write, e) (Keeps-refl s)
    | inr (row, e) ↦
        rw (finish_write, e)
          (elim (Bool-cases (is_resumed row)) [
            | inr t ↦ rw t (Keeps-refl s)
            | inl t ↦ rw t (
                Moves-update serde k j id j is_resumed (written serde result row) s.approvals
                  (λ r q h.
                    let same : r ≡ row = cc in
                    subst (λ x. Change serde r (written serde result x r)) same
                      (consume r (persisted result) (is_resumed-cases r h))))
          ])
  ]

  finish_resume-Keeps :
      (id : String) (result : Result OperationResumeResult) (s : State)
      → Keeps s (finish_resume serde (λ t. t) id result s).0
  unfolding finish_resume
  finish_resume-Keeps id result s = elim (Option-cases (get id s.approvals)) [
    | inl e ↦ rw (finish_resume, e) (Keeps-refl s)
    | inr (row, e) ↦
        rw (finish_resume, e)
          (elim (Bool-cases (row.state == "granted")) [
            | inl t ↦ rw t (Keeps-refl s)
            | inr t ↦ rw t (elim (Bool-cases (row.state == "queued" && stays_queued result)) [
              | inl t ↦ rw t (Keeps-refl s)
              | inr t ↦ rw t (
                  if-Keeps s s.fail_next_finish _ _ (Keeps-refl s) (finish_write-Keeps id result s))
            ])
          ])
  ]

  mark_inflight-Keeps : (id : String) (s : State) → Keeps s (mark_inflight id s).0
  unfolding mark_inflight
  mark_inflight-Keeps id s = elim (Bool-cases (any (λ k. k == id) s.resume_inflight)) [
    | inr t ↦ rw t (Keeps-refl s)
    | inl t ↦ rw t (Keeps-refl s)
  ]

module _ (serde : Serde) (j : String) where
  -- Every call changes a row by one of the changes, or adds one, or leaves it.
  pub step-Keeps : (c : Call) (s : State) → Keeps serde (creates c) j s (step serde c s)
  unfolding step drop_guard fail_next_finish
  step-Keeps (create w t f p id) s = create-Keeps serde (some id) j w t f p id s refl
  step-Keeps (resolve id d now) s = resolve-Keeps serde none j id d now s
  step-Keeps (mark id) s = mark_inflight-Keeps serde none j id s
  step-Keeps (take_claim id) s = take-Keeps serde none j id s
  step-Keeps (release id) s = Keeps-refl serde none j s
  step-Keeps (give_back id) s = return-Keeps serde none j id s
  step-Keeps (dispatch id) s = mark_resuming-Keeps serde none j id s
  step-Keeps (finish id result) s = finish_resume-Keeps serde none j id result s
  step-Keeps (write id result) s = finish_write-Keeps serde none j id result s
  step-Keeps fail_next s = Keeps-refl serde none j s
