-- ===== src/Approvals/Claims.antt =====
-- crates/store/src/approvals.rs: claiming the one resume of a granted approval.
use code_space.Prelude.{
  ℕ, String, ◌≡◌, refl, ap, ◌∙◌, Bool, true, false, not, Option-cases, Option, none, some, ◌==◌,
  string_keyed, inl, inr, Bool-cases, ◌⊎◌, arith, ◌||◌, List, [], ◌∷◌, ==_iff, is_some, any,
}
use code_space.Domain.Error.{Result, ok, err, ◌>>=◌}
use code_space.Domain.Approval.{grant, deny}
use code_space.Map.{Map, get, holds}
use code_space.Approvals.Types.{ApprovalRecord, ResumeClaim, Serde, Row, State, into_record}
use code_space.Approvals.Methods.{held, look, take, mark_inflight, drop_guard, replay_consumed}
use code_space.Approvals.Settle.{claimed, taken, looked, claim_resume}
use code_space.Approvals.Changes.{
  Call, step, run, Change, stay, decide, queue, resume, return, consume, Moves, absent, created,
  changed,
}
use code_space.Approvals.Steps.{step-Keeps}
use code_space.Approvals.Lifecycle.{is_closed, run-closed}

abbrev pub is_pending : Row → Bool
is_pending a = a.state == "pending"

-- The key has a row that is decided.
abbrev pub IsDecided : Option Row → Type 0
IsDecided o = holds (λ a. not (is_pending a)) o ≡ true

module _ (serde : Serde) where
  Change-decided : {a b : Row} → Change serde a b → is_pending a ≡ false → is_pending b ≡ false
  Change-decided (stay a) h = h
  Change-decided (decide a grant now e) h = refl
  Change-decided (decide a deny now e) h = refl
  Change-decided (queue a e) h = refl
  Change-decided (resume a e) h = refl
  Change-decided (return a e) h = refl
  Change-decided (consume a p e) h = refl

  Moves-IsDecided :
      {k : Option String} {j : String} {m : Map String Row} {o p : Option Row}
      → Moves serde k j m o p
      → IsDecided o
      → IsDecided p
  Moves-IsDecided absent h = h
  Moves-IsDecided (created w t f ps id hk free) h = h
  Moves-IsDecided (changed a b ch) h =
      let kept : is_pending b ≡ false = Change-decided ch (ground arith) in ground arith

  run-IsDecided :
      (cs : List Call) (s : State) (j : String)
      → IsDecided (get j s.approvals)
      → IsDecided (get j (run serde cs s).approvals)
  unfolding run
  run-IsDecided [] s j h = h
  run-IsDecided (c ∷ cs) s j h =
      run-IsDecided cs (step serde c s) j (Moves-IsDecided (step-Keeps serde j c s) h)

abbrev pub Round : Type 0
Round = State × Option (Result ResumeClaim)

bind_ends :
    (r : Result ResumeClaim) (s : State) (n : Round)
    → is_some (looked (r >>= (λ c. ok (some c))) s n).1 ≡ true
bind_ends (ok c) s n = refl
bind_ends (err e) s n = refl

held_ends :
    (claim : ApprovalRecord → String → ResumeClaim) (id : String) (r : Result ApprovalRecord)
    (s : State) (again : State → Round)
    → is_some (claimed (held claim id s r) again).1 ≡ true
held_ends claim id (ok r) s again = refl
held_ends claim id (err e) s again = refl

-- A round that begins at a closed approval ends the claim.
look_ends :
    (serde : Serde) (id : String) (s : State) (n : Round) (row : Row)
    → get id s.approvals ≡ some row
    → is_closed row.state ≡ true
    → is_some (looked (look serde id s) s n).1 ≡ true
unfolding look
look_ends serde id s n row h c =
    rw (look, h)
      (elim (Bool-cases (row.state == "consumed")) [
        | inl t ↦ rw t (bind_ends (replay_consumed serde id row.result_json) s n)
        | inr t ↦
            let denied : row.state ≡ "denied" = (==_iff row.state "denied").0 (ground arith) in
            rw (t, denied) refl
      ])

-- The second look at a decided approval ends the claim, or it is closed.
take_ends :
    (id : String) (s : State) (again : State → Round) (row : Row)
    → get id s.approvals ≡ some row
    → is_pending row ≡ false
    → ((t : State)
        → t.approvals ≡ s.approvals
        → is_closed row.state ≡ true
        → is_some (again t).1 ≡ true)
    → is_some (claimed (take id s) again).1 ≡ true
unfolding take drop_guard
take_ends id s again row h d next =
    rw (take, h)
      (elim (Bool-cases (row.state == "granted")) [
        | inl t ↦ rw t (held_ends ResumeClaim.execute id (into_record row) _ again)
        | inr g ↦ rw g (elim (Bool-cases (row.state == "queued")) [
          | inl t ↦ rw t (held_ends ResumeClaim.execute id (into_record row) s again)
          | inr q ↦ rw q (elim (Bool-cases (row.state == "resuming")) [
            | inl t ↦ rw t (held_ends ResumeClaim.reconcile id (into_record row) s again)
            | inr r ↦ rw r (elim (Bool-cases (is_closed row.state)) [
              | inl c ↦
                  let last : (row.state == "consumed"
                        || (row.state == "pending" || row.state == "denied"))
                      ≡ true =
                    ground arith in
                  rw last (next (drop_guard id s) refl c)
              | inr c ↦
                  let last : (row.state == "consumed"
                        || (row.state == "pending" || row.state == "denied"))
                      ≡ false =
                    ground arith in
                  rw last refl
            ])
          ])
        ])
      ])

decided_row :
    (o : Option Row) → IsDecided o → (row : Row) × (o ≡ some row) × (is_pending row ≡ false)
decided_row none h = cc
decided_row (some row) h = (row, refl, ground arith)

-- What a first look that passes says of the row.
look_passes :
    (serde : Serde) (id : String) (s : State)
    → IsDecided (get id s.approvals)
      ⊎ ((n : Round) → is_some (looked (look serde id s) s n).1 ≡ true)
unfolding look
look_passes serde id s = elim (Option-cases (get id s.approvals)) [
  | inl e ↦ inr (λ n. rw (look, e) refl)
  | inr (row, e) ↦ elim (Bool-cases (is_pending row)) [
    | inr t ↦ inl (rw (e, t) refl)
    | inl t ↦
        let state : row.state ≡ "pending" = (==_iff row.state "pending").0 t in
        inr (λ n. rw (look, e, state) refl)
  ]
]

looked_ends :
    (l : Result (Option ResumeClaim)) (s : State) (n : Round)
    → is_some n.1 ≡ true
    → is_some (looked l s n).1 ≡ true
looked_ends (err e) s n h = refl
looked_ends (ok (some claim)) s n h = refl
looked_ends (ok none) s n h = h

module _ (serde : Serde) (id : String) where
  taken_ends :
      (calls : List Call) (s : State) (again : State → Round)
      → IsDecided (get id s.approvals)
      → ((t : State) (row : Row)
          → get id t.approvals ≡ some row
          → is_closed row.state ≡ true
          → is_some (again t).1 ≡ true)
      → is_some (taken (run serde calls) (mark_inflight id s) again).1 ≡ true
  unfolding mark_inflight
  taken_ends calls s again d next = elim (Bool-cases (any (λ k. k == id) s.resume_inflight)) [
    | inl t ↦ rw t refl
    | inr t ↦
        let marked : State = record s { resume_inflight = id ∷ s.resume_inflight } in
        let after : State = run serde calls marked in
        let found : (row : Row) × (get id after.approvals ≡ some row) × (is_pending row ≡ false) =
          decided_row (get id after.approvals) (run-IsDecided serde calls marked id d) in
        rw t (
          take_ends id after again found.0 found.1 found.2
            (λ u e c. next u found.0 (ap (λ m. get id m) e ∙ found.1) c))
  ]

  -- A claim is decided in two rounds, whatever calls come between its looks at the row and between
  -- the rounds.
  pub claim_resume_ends :
      (calls : ℕ → List Call) (s : State)
      → is_some (claim_resume serde (λ n. run serde (calls n)) 2 id s).1 ≡ true
  unfolding claim_resume
  claim_resume_ends calls s = elim (look_passes serde id s) [
    | inr ends ↦ ends _
    | inl d ↦ looked_ends (look serde id s) s _ (
        taken_ends (calls 4) (run serde (calls 5) s) _ (run-IsDecided serde (calls 5) s id d)
          (λ t row e c.
            look_ends serde id (run serde (calls 3) t) _ row
              (run-closed serde (calls 3) t id row e c) c))
  ]
