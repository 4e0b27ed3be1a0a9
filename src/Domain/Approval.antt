-- ===== src/Domain/Approval.antt =====
-- crates/domain/src/approval.rs: the states of a confirmation hold, the tools that it can hold, and
-- their names in the database.
use code_space.Prelude.{
  String, ◌≡◌, ◌↔◌, refl, Bool, true, false, Option, none, some, arith, ◌==◌, ==_iff, string_keyed,
  if◌then◌else◌,
}
use code_space.Domain.Patch.{ApplyPatchResult, ExecCommandResult}

pub data ApprovalsMode : Type 0 where
  off confirm : ApprovalsMode

pub holds_mutations : ApprovalsMode → Bool
holds_mutations confirm = true
holds_mutations off = false

pub data ApprovalTargetTool : Type 0 where
  apply_patch exec_command : ApprovalTargetTool

pub data ApprovalState : Type 0 where
  pending granted queued resuming denied consumed : ApprovalState

pub data ApprovalDecision : Type 0 where
  grant deny : ApprovalDecision

-- `ApprovalTargetTool::as_str` and `parse`.
abbrev pub tool_name : ApprovalTargetTool → String
tool_name apply_patch = "apply_patch"
tool_name exec_command = "exec_command"

abbrev pub parse_tool : String → Option ApprovalTargetTool
parse_tool t =
    if t == "apply_patch"
    then some apply_patch
    else if t == "exec_command"
    then some exec_command
    else none

-- `ApprovalState::as_str` and `parse`.
abbrev pub as_str : ApprovalState → String
as_str pending = "pending"
as_str granted = "granted"
as_str queued = "queued"
as_str resuming = "resuming"
as_str denied = "denied"
as_str consumed = "consumed"

unfoldable pub parse : String → Option ApprovalState
parse t =
    if t == "pending"
    then some pending
    else if t == "granted"
    then some granted
    else if t == "queued"
    then some queued
    else if t == "resuming"
    then some resuming
    else if t == "denied"
    then some denied
    else if t == "consumed"
    then some consumed
    else none

pub record OperationResumeResult : Type 0 where
  pub approval_id : String
  pub state : ApprovalState
  pub patch : Option ApplyPatchResult
  pub exec : Option ExecCommandResult

pub parse-as_str : (st : ApprovalState) → parse (as_str st) ≡ some st
unfolding parse
parse-as_str pending = refl
parse-as_str granted = refl
parse-as_str queued = refl
parse-as_str resuming = refl
parse-as_str denied = refl
parse-as_str consumed = refl

-- A text is read as a state exactly if it is the state's name.
pub parse_iff : (t : String) (st : ApprovalState) → (parse t ≡ some st) ↔ (t ≡ as_str st)
unfolding parse
parse_iff t st = (
  ground (
    arith,
    ==_iff t "pending",
    ==_iff t "granted",
    ==_iff t "queued",
    ==_iff t "resuming",
    ==_iff t "denied",
    ==_iff t "consumed",
  ),
  λ e. rw e (parse-as_str st),
)
