-- ===== src/Control/State.antt =====
-- crates/runner/src/wire.rs: which connection controls an independent runner. A method holds the lock
-- of `Control` from its beginning to its end; a claim that waits takes it once in each round.
use Prim.Native.String.{◌++◌}
use code_space.Prelude.{
  ℕ, suc, String, Bool, true, false, not, Option, none, some, List, [], ◌∷◌, ◌==◌, string_keyed,
  nat_keyed, option_keyed, ◌&&◌, if◌then◌else◌, any, select, is_some, is_none,
}
use code_space.Domain.Error.{ErrorBody, ErrorCode, new, Result, ok, err, is_ok}
use code_space.Policy.Types.{Workspace}
use code_space.Runner.Output.{as_u64}

-- `Q` stands for what the handlers of an operation read of its request.
pub data RunnerOp (Q : Type 0) : Type 0 where
  read find version apply_patch exec prepare launch : Workspace → Q → RunnerOp Q
  write_stdin read_process process_status resize terminate workspace_of terminate_workspace lookup :
      Q → RunnerOp Q
  hello detach stop registration : RunnerOp Q
  claim replay : String → RunnerOp Q
  recall reconciled acknowledge : List String → RunnerOp Q

pub data ClaimRefusal : Type 0 where
  peer_uid store_mismatch controller_active requests_running stopping : ClaimRefusal

pub record Controller : Type 0 where
  pub connection : ℕ
  pub epoch : ℕ
  pub barrier : List String

pub record Control : Type 0 where
  pub epoch : ℕ
  pub controller : Option Controller
  pub claiming : Option ℕ
  pub store_id : Option String
  pub started_in : List String

-- `ended` has the connections whose flag is set.
pub record Shared : Type 0 where
  pub control : Control
  pub ended : List ℕ
  pub stop_requested : Bool
  pub owner_uid : ℕ

abbrev pub new_control : Control
new_control = record {
  epoch = 0;
  controller = none;
  claiming = none;
  store_id = none;
  started_in = [];
}

abbrev pub holds_name : String → List String → Bool
holds_name name names = any (λ n. n == name) names

abbrev pub flag_set : ℕ → Shared → Bool
flag_set connection s = any (λ c. c == connection) s.ended

abbrev pub is_controller : ℕ → Option Controller → Bool
is_controller connection none = false
is_controller connection (some c) = c.connection == connection

abbrev pub is_mismatch : String → Option String → Bool
is_mismatch store_id none = false
is_mismatch store_id (some known) = not (known == store_id)

abbrev pub is_current : ℕ → Result ℕ → Bool
is_current owner (ok uid) = uid == owner
is_current owner (err e) = false

abbrev pub is_still_open : Option Controller → Shared → Bool
is_still_open none s = false
is_still_open (some c) s = not (flag_set c.connection s)

-- `take_control` up to its wait: the connection whose peer has this uid claims, or is refused.
unfoldable pub begin_claim : ℕ → Result ℕ → String → Shared → Shared × Option ClaimRefusal
begin_claim connection uid store_id s =
    if s.stop_requested
    then (s, some stopping)
    else if not (is_current s.owner_uid uid)
    then (s, some peer_uid)
    else if store_id == ""
    then (s, some store_mismatch)
    else if is_mismatch store_id s.control.store_id
    then (s, some store_mismatch)
    else if is_controller connection s.control.controller
    then (s, some controller_active)
    else if is_still_open s.control.controller s
    then (s, some controller_active)
    else if is_some s.control.claiming
    then (s, some controller_active)
    else (record s { control = record s.control { claiming = some connection } }, none)

abbrev pub or_first : Option String → String → Option String
or_first none store_id = some store_id
or_first (some known) store_id = some known

abbrev pub accepted : ℕ → String → Shared → Shared
accepted connection store_id s = record s {
  control = record s.control {
    claiming = none;
    epoch = as_u64 (suc s.control.epoch);
    controller = some (record {
      connection = connection;
      epoch = as_u64 (suc s.control.epoch);
      barrier = s.control.started_in;
    });
    store_id = or_first s.control.store_id store_id;
  };
}

-- Whether a claim waits no longer, and why.
abbrev pub wait_refusal : ℕ → Bool → Shared → Option ClaimRefusal
wait_refusal connection past_deadline s =
    if s.stop_requested
    then some stopping
    else if flag_set connection s
    then some requests_running
    else if past_deadline
    then some requests_running
    else none

abbrev pub give_up : Option ClaimRefusal → Shared → Shared
give_up none s = s
give_up (some refusal) s = record s { control = record s.control { claiming = none } }

-- One round of the wait: the claim is accepted, is refused, or waits on.
unfoldable pub poll_claim : ℕ → String → Bool → Shared → Shared × Option ClaimRefusal
poll_claim connection store_id past_deadline s =
    if is_none s.control.controller then (accepted connection store_id s, none) else (
      give_up (wait_refusal connection past_deadline s) s,
      wait_refusal connection past_deadline s,
    )

-- The two messages of a stale controller; the second names the epochs.
abbrev pub stale_controller : String → ErrorBody
stale_controller message = new ErrorCode.stale_controller message

abbrev pub not_controller : ErrorBody
not_controller =
    stale_controller
      "this connection does not control the independent Runner: another connection claimed it, or this one never did; nothing was started or changed"

abbrev pub recovery_pending : String → ErrorBody
recovery_pending workspace_id = new ErrorCode.recovery_pending (
    "an earlier gateway started work in workspace `"
    ++ (workspace_id
        ++ "` on this independent Runner, and this gateway has not reconciled it yet: its processes can be queried, read, written to, resized and terminated, but nothing new is started there"))

abbrev pub insert_name : String → List String → List String
insert_name name names = if holds_name name names then names else name ∷ names

abbrev pub start_in : Option String → Controller → Shared → Shared × Result (Unit {0})
start_in none c s = (s, ok tt)
start_in (some workspace_id) c s =
    if holds_name workspace_id c.barrier then (s, err (recovery_pending workspace_id)) else (
      record s {
        control = record s.control { started_in = insert_name workspace_id s.control.started_in };
      },
      ok tt,
    )

-- `show` writes an epoch, or `none`.
abbrev pub wrong_epoch : (Option ℕ → String) → Option ℕ → ℕ → ErrorBody
wrong_epoch show epoch current = stale_controller (
    "the request was sent under controller epoch "
    ++ (show epoch
        ++ (", and the Runner is controlled under epoch "
            ++ (show (some current) ++ ": nothing was started or changed"))))

module _ {Q : Type 0} where
  abbrev pub fenced : RunnerOp Q → Bool
  fenced (exec w q) = true
  fenced (apply_patch w q) = true
  fenced (write_stdin q) = true
  fenced (resize q) = true
  fenced (terminate q) = true
  fenced (terminate_workspace q) = true
  fenced stop = true
  fenced (reconciled ids) = true
  fenced (acknowledge ids) = true
  fenced (prepare w q) = true
  fenced (launch w q) = true
  fenced _ = false

  abbrev pub starts_work : RunnerOp Q → Option String
  starts_work (exec w q) = some w.id
  starts_work (apply_patch w q) = some w.id
  starts_work (prepare w q) = some w.id
  starts_work (launch w q) = some w.id
  starts_work _ = none

  abbrev pub admit_as :
      (Option ℕ → String)
      → ℕ
      → Option ℕ
      → RunnerOp Q
      → Option Controller
      → Shared
      → Shared × Result (Unit {0})
  admit_as show connection epoch op none s = (s, err not_controller)
  admit_as show connection epoch op (some c) s =
      if not (c.connection == connection)
      then (s, err not_controller)
      else if fenced op && not (epoch == some c.epoch)
      then (s, err (wrong_epoch show epoch c.epoch))
      else start_in (starts_work op) c s

  unfoldable pub admit :
      (Option ℕ → String) → ℕ → Option ℕ → RunnerOp Q → Shared → Shared × Result (Unit {0})
  admit show connection epoch op s = admit_as show connection epoch op s.control.controller s

abbrev pub cleared : List String → Controller → Controller
cleared ids c = record c { barrier = select (λ n. not (holds_name n ids)) c.barrier }

abbrev pub reconciled_as : ℕ → List String → Option Controller → Option Controller
reconciled_as connection ids none = none
reconciled_as connection ids (some c) =
    if c.connection == connection then some (cleared ids c) else some c

unfoldable pub reconcile : ℕ → List String → Shared → Shared
reconcile connection ids s = record s {
  control = record s.control { controller = reconciled_as connection ids s.control.controller };
}

unfoldable pub release : ℕ → Shared → Shared × Bool
release connection s =
    if not (is_controller connection s.control.controller)
    then (s, false)
    else (record s { control = record s.control { controller = none } }, true)

-- A request that names reconciled workspaces is admitted first.
unfoldable pub serve_reconciled :
    (Q : Type 0)
    → (Option ℕ → String)
    → ℕ
    → Option ℕ
    → List String
    → Shared
    → Shared × Result (Unit {0})
serve_reconciled Q show connection epoch ids s =
    let admitted = admit {Q = Q} show connection epoch (RunnerOp.reconciled ids) s in
    (if is_ok admitted.1 then reconcile connection ids admitted.0 else admitted.0, admitted.1)

-- The stream of a connection ended, or it detached.
abbrev pub end_connection : ℕ → Shared → Shared
end_connection connection s = record s { ended = connection ∷ s.ended }

abbrev pub request_stop : Shared → Shared
request_stop s = record s { stop_requested = true }
