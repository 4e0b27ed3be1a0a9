-- ===== src/Control/Tests.antt =====
-- Runs of the control of an independent runner, and the theorems at concrete inputs.
use code_space.Prelude.{
  ℕ, String, ◌≡◌, refl, true, false, Option, none, some, List, [], ◌∷◌, ◌==◌, ◌&&◌, option_keyed,
  nat_keyed, any, select,
}
use code_space.Domain.Error.{ok, is_ok}
use code_space.Policy.Types.{Workspace, workspace_write}
use code_space.Policy.Registry.{new_workspace}
use code_space.Control.State.{
  RunnerOp, exec, stop, Shared, new_control, admit, release, begin_claim, poll_claim,
  serve_reconciled, reconcile, is_controller,
}
use code_space.Control.Events.{
  ControlEvent, claims, waits, requests, reconciles, releases, ends, control_step, control_run,
}
use code_space.Control.Started.{refused_until_reconciled}
use code_space.Control.Epoch.{fenced_under_last_claim}

abbrev workspace : Workspace
workspace =
    new_workspace "demo" (record { absolute = true; names = "srv" ∷ "demo" ∷ [] }) workspace_write

abbrev show : Option ℕ → String
show none = "none"
show (some n) = "some"

abbrev idle : Shared
idle = record { control = new_control; ended = []; stop_requested = false; owner_uid = 1000 }

abbrev controlled : Shared
controlled = record idle {
  control = record new_control {
    epoch = 1;
    controller = some (record { connection = 1; epoch = 1; barrier = [] });
    store_id = some "db";
  };
}

abbrev run_command : RunnerOp String
run_command = exec workspace "ls"

abbrev second_claim : List (ControlEvent String)
second_claim = claims 2 (ok 1000) "db" ∷ waits 2 "db" false ∷ []

-- A second connection claims the runner once the first has let go of it.
abbrev handed_over : List (ControlEvent String)
handed_over =
    claims 1 (ok 1000) "db"
    ∷ waits 1 "db" false
    ∷ requests 1 (some 1) run_command
    ∷ ends 1
    ∷ claims 2 (ok 1000) "db"
    ∷ waits 2 "db" false
    ∷ releases 1
    ∷ waits 2 "db" false
    ∷ []

under_second_epoch :
    is_ok (admit {Q = String} show 2 (some 2) stop (control_run show handed_over idle)).1 ≡ true
unfolding control_run control_step admit begin_claim poll_claim release any select
under_second_epoch = refl

reconciled_first :
    is_ok
      (admit show 2 (some 2) run_command (
        control_run {Q = String} show
          (reconciles 2 (some 2) (workspace.id ∷ []) ∷ [])
          (control_run show handed_over idle))).1
    ≡ true
unfolding control_run control_step admit begin_claim poll_claim release any select reconcile
    serve_reconciled
reconciled_first = refl

refused_until_reconciled_example :
    is_ok
      (admit show 2 (some 2) run_command (
        control_run show
          (second_claim)
          (release 1 (
            control_run {Q = String} show
              (ends 1 ∷ [])
              (admit show 1 (some 1) run_command controlled).0)).0)).1
    ≡ false
unfolding control_run control_step admit release any
refused_until_reconciled_example =
    refused_until_reconciled show workspace.id run_command run_command 1 1 2 (some 1) (some 2)
      (ends 1 ∷ []) (second_claim) controlled refl refl refl (refl, (refl, tt)) refl

fenced_under_last_claim_example :
    (is_controller 2 (control_run show handed_over idle).control.controller
      && (some 2 == some (control_run show handed_over idle).control.epoch))
    ≡ true
fenced_under_last_claim_example =
    fenced_under_last_claim show handed_over idle 2 (some 2) stop refl refl under_second_epoch
