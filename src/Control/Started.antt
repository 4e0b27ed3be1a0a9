-- ===== src/Control/Started.antt =====
-- crates/runner/src/wire.rs: the runner remembers every workspace in which a controller started work.
use code_space.Prelude.{
  ℕ, String, ◌≡◌, sym, subst, Bool, true, false, Option, none, some, List, [], ◌∷◌, nat_keyed,
  option_keyed, string_keyed, arith, refl, All,
}
use code_space.Domain.Error.{is_ok}
use code_space.Control.State.{
  RunnerOp, Controller, Shared, begin_claim, poll_claim, admit, admit_as, reconcile,
  serve_reconciled, release, holds_name, starts_work, start_in,
}
use code_space.Control.Events.{ControlEvent, control_step, control_run, clears}
use code_space.Control.Fence.{
  holds_back, blocks, insert_name_holds, holds_name-insert_name, run_holds_back,
}

abbrev pub remembers : String → Shared → Bool
remembers w s = holds_name w s.control.started_in

start_in-remembers :
    (w : String) (started : Option String) (c : Controller) (s : Shared)
    → remembers w s ≡ true
    → remembers w (start_in started c s).0 ≡ true
start_in-remembers w none c s h = h
start_in-remembers w (some v) c s h =
    ground (arith, holds_name-insert_name w v s.control.started_in)

start_in_started :
    (w : String) (started : Option String) (c : Controller) (s : Shared)
    → started ≡ some w
    → is_ok (start_in started c s).1 ≡ true
    → remembers w (start_in started c s).0 ≡ true
start_in_started w started c s e =
    subst (λ o. is_ok (start_in o c s).1 ≡ true → remembers w (start_in o c s).0 ≡ true) (sym e)
      (λ h. ground (arith, insert_name_holds w s.control.started_in))

start_in_refused :
    (w : String) (started : Option String) (c : Controller) (s : Shared)
    → started ≡ some w
    → holds_name w c.barrier ≡ true
    → is_ok (start_in started c s).1 ≡ false
start_in_refused w started c s e h =
    subst (λ o. is_ok (start_in o c s).1 ≡ false) (sym e) (ground arith)

module _ {Q : Type 0} (show : Option ℕ → String) where
  admit_as-remembers :
      (w : String) (connection : ℕ) (epoch : Option ℕ) (op : RunnerOp Q) (o : Option Controller)
      (s : Shared)
      → remembers w s ≡ true
      → remembers w (admit_as show connection epoch op o s).0 ≡ true
  admit_as-remembers w connection epoch op none s h = h
  admit_as-remembers w connection epoch op (some c) s h =
      ground (arith, start_in-remembers w (starts_work op) c s h)

  step_remembers :
      (w : String) (e : ControlEvent Q) (s : Shared)
      → remembers w s ≡ true
      → remembers w (control_step show e s) ≡ true
  unfolding control_step serve_reconciled admit begin_claim poll_claim release reconcile
  step_remembers w (ControlEvent.claims k uid store_id) s h = ground arith
  step_remembers w (ControlEvent.waits k store_id late) s h = ground arith
  step_remembers w (ControlEvent.requests k epoch op) s h =
      admit_as-remembers w k epoch op s.control.controller s h
  step_remembers w (ControlEvent.reconciles k epoch ids) s h =
      ground
        (arith, admit_as-remembers w k epoch (RunnerOp.reconciled ids) s.control.controller s h)
  step_remembers w (ControlEvent.releases k) s h = ground arith
  step_remembers w (ControlEvent.ends k) s h = h
  step_remembers w ControlEvent.stops s h = h

  run_remembers :
      (w : String) (es : List (ControlEvent Q)) (s : Shared)
      → remembers w s ≡ true
      → remembers w (control_run show es s) ≡ true
  unfolding control_run
  run_remembers w [] s h = h
  run_remembers w (e ∷ es) s h = run_remembers w es (control_step show e s) (step_remembers w e s h)

  admit_as_started :
      (w : String) (connection : ℕ) (epoch : Option ℕ) (op : RunnerOp Q) (o : Option Controller)
      (s : Shared)
      → starts_work op ≡ some w
      → is_ok (admit_as show connection epoch op o s).1 ≡ true
      → remembers w (admit_as show connection epoch op o s).0 ≡ true
  admit_as_started w connection epoch op none s e h = ground arith
  admit_as_started w connection epoch op (some c) s e h =
      ground (arith, start_in_started w (starts_work op) c s e)

  admit_as_refused :
      (w : String) (connection : ℕ) (epoch : Option ℕ) (op : RunnerOp Q) (s : Shared)
      → starts_work op ≡ some w
      → holds_back w s ≡ true
      → (o : Option Controller) → s.control.controller ≡ o
      → is_ok (admit_as show connection epoch op o s).1 ≡ false
  admit_as_refused w connection epoch op s e h none same = refl
  admit_as_refused w connection epoch op s e h (some c) same =
      let kept : holds_name w c.barrier ≡ true =
        subst (λ o. blocks w o ≡ true) same (ground arith) in
      ground (arith, start_in_refused w (starts_work op) c s e kept)

  admit_started :
      (w : String) (connection : ℕ) (epoch : Option ℕ) (op : RunnerOp Q) (s : Shared)
      → starts_work op ≡ some w
      → is_ok (admit show connection epoch op s).1 ≡ true
      → remembers w (admit show connection epoch op s).0 ≡ true
  unfolding admit
  admit_started w k epoch op s = admit_as_started w k epoch op s.control.controller s

  admit_refused :
      (w : String) (connection : ℕ) (epoch : Option ℕ) (op : RunnerOp Q) (s : Shared)
      → starts_work op ≡ some w
      → holds_back w s ≡ true
      → is_ok (admit show connection epoch op s).1 ≡ false
  unfolding admit
  admit_refused w k epoch op s e h = admit_as_refused w k epoch op s e h s.control.controller refl

release_holds :
    (w : String) (connection : ℕ) (s : Shared)
    → remembers w s ≡ true
    → (release connection s).1 ≡ true
    → holds_back w (release connection s).0 ≡ true
unfolding release
release_holds w connection s h e = ground arith

module _ {Q : Type 0} (show : Option ℕ → String) where
  -- Once a request that starts work in a workspace was admitted, and who controls the runner, after
  -- any steps, has let go of it, no request that starts work there is admitted, whoever sends it and
  -- under whatever epoch, after any further steps of which none is a request that names the workspace
  -- as reconciled.
  pub refused_until_reconciled :
      (w : String) (first next : RunnerOp Q) (k l m : ℕ) (at then_at : Option ℕ)
      (before after : List (ControlEvent Q)) (s : Shared)
      → starts_work first ≡ some w
      → is_ok (admit show k at first s).1 ≡ true
      → (release l (control_run show before (admit show k at first s).0)).1 ≡ true
      → All (λ e. clears w e ≡ false) after
      → starts_work next ≡ some w
      → is_ok
          (admit show m then_at next (
            control_run show after
              (release l (control_run show before (admit show k at first s).0)).0)).1
        ≡ false
  refused_until_reconciled w first next k l m at then_at before after s starts granted lets quiet
        again =
      let begun : remembers w (admit show k at first s).0 ≡ true =
        admit_started show w k at first s starts granted in
      let held =
        release_holds w l (control_run show before (admit show k at first s).0)
          (run_remembers show w before (admit show k at first s).0 begun) lets in
      admit_refused show w m then_at next _ again (run_holds_back show w after _ quiet held)
