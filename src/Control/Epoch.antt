-- ===== src/Control/Epoch.antt =====
-- crates/runner/src/wire.rs: a request that changes anything is served for the controller alone, and
-- under the epoch of the last claim.
use code_space.Prelude.{
  ℕ, String, ◌≡◌, ap, Bool, true, Option, none, some, List, [], ◌∷◌, ◌==◌, nat_keyed, option_keyed,
  string_keyed, ==_iff, ==_refl, ◌&&◌, arith,
}
use code_space.Domain.Error.{is_ok}
use code_space.Control.State.{
  RunnerOp, Controller, Shared, new_control, begin_claim, poll_claim, admit, admit_as, reconcile,
  reconciled_as, serve_reconciled, release, starts_work, start_in, fenced, accepted, is_controller,
}
use code_space.Control.Events.{ControlEvent, control_step, control_run}

abbrev pub under : ℕ → Option Controller → Bool
under epoch none = true
under epoch (some c) = c.epoch == epoch

-- Who controls the runner does so under the last epoch.
abbrev pub is_fresh : Shared → Bool
is_fresh s = under s.control.epoch s.control.controller

accepted_fresh : (k : ℕ) (store_id : String) (s : Shared) → is_fresh (accepted k store_id s) ≡ true
accepted_fresh k store_id s = ==_refl (accepted k store_id s).control.epoch

poll_fresh :
    (k : ℕ) (store_id : String) (late : Bool) (s : Shared)
    → is_fresh s ≡ true
    → is_fresh (poll_claim k store_id late s).0 ≡ true
unfolding poll_claim
poll_fresh k store_id late s h = ground (arith, accepted_fresh k store_id s)

reconciled_under :
    (epoch k : ℕ) (ids : List String) (o : Option Controller)
    → under epoch o ≡ true
    → under epoch (reconciled_as k ids o) ≡ true
reconciled_under epoch k ids none h = h
reconciled_under epoch k ids (some c) h = ground arith

reconcile_fresh :
    (k : ℕ) (ids : List String) (s : Shared)
    → is_fresh s ≡ true
    → is_fresh (reconcile k ids s) ≡ true
unfolding reconcile
reconcile_fresh k ids s h = reconciled_under s.control.epoch k ids s.control.controller h

start_in_fresh :
    (started : Option String) (c : Controller) (s : Shared)
    → is_fresh s ≡ true
    → is_fresh (start_in started c s).0 ≡ true
start_in_fresh none c s h = h
start_in_fresh (some w) c s h = ground arith

module _ {Q : Type 0} (show : Option ℕ → String) where
  admit_as_fresh :
      (k : ℕ) (epoch : Option ℕ) (op : RunnerOp Q) (o : Option Controller) (s : Shared)
      → is_fresh s ≡ true
      → is_fresh (admit_as show k epoch op o s).0 ≡ true
  admit_as_fresh k epoch op none s h = h
  admit_as_fresh k epoch op (some c) s h = ground (arith, start_in_fresh (starts_work op) c s h)

  step_fresh :
      (e : ControlEvent Q) (s : Shared)
      → is_fresh s ≡ true
      → is_fresh (control_step show e s) ≡ true
  unfolding control_step serve_reconciled admit begin_claim release
  step_fresh (ControlEvent.claims k uid store_id) s h = ground arith
  step_fresh (ControlEvent.waits k store_id late) s h = ground (arith, poll_fresh k store_id late s)
  step_fresh (ControlEvent.requests k epoch op) s h =
      admit_as_fresh k epoch op s.control.controller s h
  step_fresh (ControlEvent.reconciles k epoch ids) s h = ground (
    arith,
    reconcile_fresh k ids
        (admit_as {Q = Q} show k epoch (RunnerOp.reconciled ids) s.control.controller s).0,
    admit_as_fresh k epoch (RunnerOp.reconciled ids) s.control.controller s h,
  )
  step_fresh (ControlEvent.releases k) s h = ground arith
  step_fresh (ControlEvent.ends k) s h = h
  step_fresh ControlEvent.stops s h = h

  run_fresh :
      (es : List (ControlEvent Q)) (s : Shared)
      → is_fresh s ≡ true
      → is_fresh (control_run show es s) ≡ true
  unfolding control_run
  run_fresh [] s h = h
  run_fresh (e ∷ es) s h = run_fresh es (control_step show e s) (step_fresh e s h)

  admit_as_epoch :
      (k : ℕ) (epoch : Option ℕ) (op : RunnerOp Q) (o : Option Controller) (current : ℕ)
      (s : Shared)
      → fenced op ≡ true
      → under current o ≡ true
      → is_ok (admit_as show k epoch op o s).1 ≡ true
      → (is_controller k o && (epoch == some current)) ≡ true
  admit_as_epoch k epoch op none current s f u h = ground arith
  admit_as_epoch k epoch op (some c) current s f u h = ground (arith, (==_iff c.epoch current).0 u)

  admit_epoch :
      (k : ℕ) (epoch : Option ℕ) (op : RunnerOp Q) (s : Shared)
      → fenced op ≡ true
      → is_fresh s ≡ true
      → is_ok (admit show k epoch op s).1 ≡ true
      → (is_controller k s.control.controller && (epoch == some s.control.epoch)) ≡ true
  unfolding admit
  admit_epoch k epoch op s = admit_as_epoch k epoch op s.control.controller s.control.epoch s

  -- After any steps of a new runner, a request that changes a process or a workspace is admitted only
  -- from the connection that controls the runner, and only under the epoch of the last accepted claim.
  pub fenced_under_last_claim :
      (es : List (ControlEvent Q)) (s : Shared) (k : ℕ) (epoch : Option ℕ) (op : RunnerOp Q)
      → s.control ≡ new_control
      → fenced op ≡ true
      → is_ok (admit show k epoch op (control_run show es s)).1 ≡ true
      → (is_controller k (control_run show es s).control.controller
          && (epoch == some (control_run show es s).control.epoch))
        ≡ true
  fenced_under_last_claim es s k epoch op new f =
      admit_epoch k epoch op (control_run show es s) f
        (run_fresh es s (ap (λ c. under c.epoch c.controller) new))
