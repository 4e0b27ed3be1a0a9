-- ===== src/Approvals/Once.antt =====
-- crates/store/src/approvals.rs: a granted approval is claimed by one resume at a time.
use code_space.Prelude.{
  ℕ, suc, String, ◌≡◌, refl, true, false, some, ◌==◌, string_keyed, inl, inr, ◌⊎◌, ◌∷◌, ==_refl,
  any,
}
use code_space.Domain.Error.{ok, err}
use code_space.Map.{get, update, get-update}
use code_space.Approvals.Types.{
  ApprovalRecord, ResumeClaim, Serde, Row, State, into_record, conflict,
}
use code_space.Approvals.Methods.{look, take, mark_inflight, is_in}
use code_space.Approvals.Settle.{claim_resume}

-- No other call comes between.
abbrev pub idle : ℕ → State → State
idle n s = s

-- The state after a granted approval is claimed.
abbrev pub claimed_state : String → State → State
claimed_state id s = record s {
  approvals = update id (is_in "granted") (λ r. record r { state = "queued" }) s.approvals;
  resume_inflight = id ∷ s.resume_inflight;
}

module _ (serde : Serde) (id : String) where
  -- An approval whose resume is in progress is not claimed again: the second claim is refused and
  -- changes nothing.
  claim_resume_busy :
      (fuel : ℕ) (s : State) (row : Row)
      → get id s.approvals ≡ some row
      → (row.state ≡ "granted") ⊎ ((row.state ≡ "queued") ⊎ (row.state ≡ "resuming"))
      → any (λ k. k == id) s.resume_inflight ≡ true
      → claim_resume serde idle (suc fuel) id s
        ≡ (s, some (err (conflict "resume already in progress")))
  unfolding claim_resume look mark_inflight
  claim_resume_busy fuel s row h (inl e) b = rw (look, h, e, b) refl
  claim_resume_busy fuel s row h (inr (inl e)) b = rw (look, h, e, b) refl
  claim_resume_busy fuel s row h (inr (inr e)) b = rw (look, h, e, b) refl

  -- A granted approval with a readable row and no resume in progress is claimed for execution and
  -- queued, and a second claim after it is refused and changes nothing; no other call comes between.
  pub claim_resume_once :
      (m n : ℕ) (s : State) (row : Row) (r : ApprovalRecord)
      → get id s.approvals ≡ some row
      → row.state ≡ "granted"
      → into_record row ≡ ok r
      → any (λ k. k == id) s.resume_inflight ≡ false
      → (claim_resume serde idle (suc m) id s
          ≡ (claimed_state id s, some (ok (ResumeClaim.execute r id))))
        × (claim_resume serde idle (suc n) id (claimed_state id s)
            ≡ (claimed_state id s, some (err (conflict "resume already in progress"))))
  unfolding claim_resume look mark_inflight take any
  claim_resume_once m n s row r h g i b =
      let is_granted : (row.state == "granted") ≡ true = rw g refl in
      let not_consumed : (row.state == "consumed") ≡ false = rw g refl in
      let not_pending : (row.state == "pending") ≡ false = rw g refl in
      let not_denied : (row.state == "denied") ≡ false = rw g refl in
      let queued : get id (claimed_state id s).approvals ≡ some (record row { state = "queued" }) =
        rw (get-update, ==_refl id, h, is_granted) refl in
      let inflight : any (λ k. k == id) (claimed_state id s).resume_inflight ≡ true =
        rw (==_refl id) refl in
      (
        rw (look, take, h, not_consumed, not_pending, not_denied, is_granted, b, h, is_granted, i)
            refl,
        claim_resume_busy n (claimed_state id s) (record row { state = "queued" }) queued
            (inr (inl refl)) inflight,
      )
