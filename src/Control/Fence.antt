-- ===== src/Control/Fence.antt =====
-- crates/runner/src/wire.rs: where an earlier controller started work, a later one starts none before
-- it has reconciled the workspace.
use code_space.Prelude.{
  ◌∙◌, ℕ, String, ◌≡◌, ap, Bool, true, false, not, Option, none, some, List, [], ◌∷◌, ◌==◌,
  string_keyed, ==_iff, ◌&&◌, any, select, inl, inr, arith, Bool-cases, refl, All,
}
use code_space.Domain.Error.{Result}
use code_space.Control.State.{
  RunnerOp, Controller, Shared, begin_claim, poll_claim, admit, admit_as, reconcile, reconciled_as,
  serve_reconciled, release, holds_name, starts_work, insert_name, start_in,
}
use code_space.Control.Events.{ControlEvent, control_step, control_run, clears}

holds_name_refl : (w : String) (names : List String) → holds_name w (w ∷ names) ≡ true
unfolding any
holds_name_refl w names = ground (arith, (==_iff w w).1 refl)

pub holds_name-insert_name :
    (w v : String) (names : List String)
    → holds_name w names ≡ true
    → holds_name w (insert_name v names) ≡ true
unfolding any
holds_name-insert_name w v names h = ground arith

pub insert_name_holds :
    (w : String) (names : List String) → holds_name w (insert_name w names) ≡ true
insert_name_holds w names = ground (arith, holds_name_refl w names)

-- What is not reconciled stays in the barrier.
select_keeps_name :
    (w : String) (ids names : List String)
    → holds_name w ids ≡ false
    → holds_name w names ≡ true
    → holds_name w (select (λ n. not (holds_name n ids)) names) ≡ true
unfolding any select
select_keeps_name w ids [] absent h = h
select_keeps_name w ids (n ∷ names) absent h = elim (Bool-cases (n == w)) [
  | inl e ↦
      let here : holds_name n ids ≡ false =
        ap (λ v. holds_name v ids) ((==_iff n w).0 e) ∙ absent in
      ground arith
  | inr e ↦ ground (arith, select_keeps_name w ids names absent)
]

abbrev pub blocks : String → Option Controller → Bool
blocks workspace_id none = true
blocks workspace_id (some c) = holds_name workspace_id c.barrier

-- Work was started in the workspace, and who controls the runner has not reconciled it.
abbrev pub holds_back : String → Shared → Bool
holds_back workspace_id s =
    holds_name workspace_id s.control.started_in && blocks workspace_id s.control.controller

start_in-holds_back :
    (w : String) (started : Option String) (c : Controller) (s : Shared)
    → holds_back w s ≡ true
    → holds_back w (start_in started c s).0 ≡ true
start_in-holds_back w none c s h = h
start_in-holds_back w (some v) c s h =
    ground (arith, holds_name-insert_name w v s.control.started_in)

begin_holds_back :
    (w : String) (connection : ℕ) (uid : Result ℕ) (store_id : String) (s : Shared)
    → holds_back w s ≡ true
    → holds_back w (begin_claim connection uid store_id s).0 ≡ true
unfolding begin_claim
begin_holds_back w connection uid store_id s h = ground arith

poll_holds_back :
    (w : String) (connection : ℕ) (store_id : String) (late : Bool) (s : Shared)
    → holds_back w s ≡ true
    → holds_back w (poll_claim connection store_id late s).0 ≡ true
unfolding poll_claim
poll_holds_back w connection store_id late s h = ground arith

release-holds_back :
    (w : String) (connection : ℕ) (s : Shared)
    → holds_back w s ≡ true
    → holds_back w (release connection s).0 ≡ true
unfolding release
release-holds_back w connection s h = ground arith

reconciled_blocks :
    (w : String) (connection : ℕ) (ids : List String) (o : Option Controller)
    → holds_name w ids ≡ false
    → blocks w o ≡ true
    → blocks w (reconciled_as connection ids o) ≡ true
reconciled_blocks w connection ids none absent h = refl
reconciled_blocks w connection ids (some c) absent h =
    ground (arith, select_keeps_name w ids c.barrier absent)

reconcile-holds_back :
    (w : String) (connection : ℕ) (ids : List String) (s : Shared)
    → holds_name w ids ≡ false
    → holds_back w s ≡ true
    → holds_back w (reconcile connection ids s) ≡ true
unfolding reconcile
reconcile-holds_back w connection ids s absent h =
    ground (arith, reconciled_blocks w connection ids s.control.controller absent)

module _ {Q : Type 0} (show : Option ℕ → String) where
  admit_as-holds_back :
      (w : String) (connection : ℕ) (epoch : Option ℕ) (op : RunnerOp Q) (o : Option Controller)
      (s : Shared)
      → holds_back w s ≡ true
      → holds_back w (admit_as show connection epoch op o s).0 ≡ true
  admit_as-holds_back w connection epoch op none s h = h
  admit_as-holds_back w connection epoch op (some c) s h =
      ground (arith, start_in-holds_back w (starts_work op) c s h)

  admit-holds_back :
      (w : String) (connection : ℕ) (epoch : Option ℕ) (op : RunnerOp Q) (s : Shared)
      → holds_back w s ≡ true
      → holds_back w (admit show connection epoch op s).0 ≡ true
  unfolding admit
  admit-holds_back w connection epoch op s h =
      admit_as-holds_back w connection epoch op s.control.controller s h

  step_holds_back :
      (w : String) (e : ControlEvent Q) (s : Shared)
      → clears w e ≡ false
      → holds_back w s ≡ true
      → holds_back w (control_step show e s) ≡ true
  unfolding control_step serve_reconciled
  step_holds_back w (ControlEvent.claims k uid store_id) s q h =
      begin_holds_back w k uid store_id s h
  step_holds_back w (ControlEvent.waits k store_id late) s q h =
      ground (arith, poll_holds_back w k store_id late s h)
  step_holds_back w (ControlEvent.requests k epoch op) s q h = admit-holds_back w k epoch op s h
  step_holds_back w (ControlEvent.reconciles k epoch ids) s q h = ground (
    arith,
    reconcile-holds_back w k ids (admit {Q = Q} show k epoch (RunnerOp.reconciled ids) s).0 q,
    admit-holds_back w k epoch (RunnerOp.reconciled ids) s h,
  )
  step_holds_back w (ControlEvent.releases k) s q h = release-holds_back w k s h
  step_holds_back w (ControlEvent.ends k) s q h = h
  step_holds_back w ControlEvent.stops s q h = h

  pub run_holds_back :
      (w : String) (es : List (ControlEvent Q)) (s : Shared)
      → All (λ e. clears w e ≡ false) es
      → holds_back w s ≡ true
      → holds_back w (control_run show es s) ≡ true
  unfolding control_run
  run_holds_back w [] s q h = h
  run_holds_back w (e ∷ es) s q h =
      run_holds_back w es (control_step show e s) q.1 (step_holds_back w e s q.0 h)
