-- ===== src/Control/Events.antt =====
-- crates/runner/src/wire.rs: what happens to the control of an independent runner, one step at a time:
-- each step is what one request or one end of a connection does under the lock.
use code_space.Prelude.{
  ℕ, String, Bool, false, Option, List, [], ◌∷◌, ◌==◌, option_keyed, nat_keyed, if◌then◌else◌, some,
}
use code_space.Domain.Error.{Result}
use code_space.Control.State.{
  RunnerOp, Shared, begin_claim, poll_claim, admit, serve_reconciled, release, end_connection,
  request_stop, holds_name,
}

pub data ControlEvent (Q : Type 0) : Type 0 where
  claims : ℕ → Result ℕ → String → ControlEvent Q
  waits : ℕ → String → Bool → ControlEvent Q
  requests : ℕ → Option ℕ → RunnerOp Q → ControlEvent Q
  reconciles : ℕ → Option ℕ → List String → ControlEvent Q
  releases ends : ℕ → ControlEvent Q
  stops : ControlEvent Q

module _ {Q : Type 0} (show : Option ℕ → String) where
  -- Only the connection whose claim waits looks again whether it may control the runner.
  unfoldable pub control_step : ControlEvent Q → Shared → Shared
  control_step (claims connection uid store_id) s = (begin_claim connection uid store_id s).0
  control_step (waits connection store_id past_deadline) s =
      if s.control.claiming == some connection
      then (poll_claim connection store_id past_deadline s).0
      else s
  control_step (requests connection epoch op) s = (admit show connection epoch op s).0
  control_step (reconciles connection epoch ids) s =
      (serve_reconciled Q show connection epoch ids s).0
  control_step (releases connection) s = (release connection s).0
  control_step (ends connection) s = end_connection connection s
  control_step stops s = request_stop s

  unfoldable pub control_run : List (ControlEvent Q) → Shared → Shared
  control_run [] s = s
  control_run (e ∷ es) s = control_run es (control_step e s)

-- An event that reconciles the workspace.
abbrev pub clears : {Q : Type 0} → String → ControlEvent Q → Bool
clears workspace_id (reconciles connection epoch ids) = holds_name workspace_id ids
clears workspace_id _ = false
