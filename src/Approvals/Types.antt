-- ===== src/Approvals/Types.antt =====
-- crates/store/src/approvals.rs: the rows of the approvals table, the store's state about resumes,
-- and the texts that go into a row.
use Prim.Native.String.{◌++◌}
use code_space.Prelude.{
  ℕ, String, Bool, true, Option, none, some, List, ◌∷◌, [], ◌==◌, string_keyed, ◌||◌, ◌&&◌,
}
use code_space.Domain.Error.{
  ErrorBody, ErrorCode, new, with_operation_id, with_approval_id, Result, ok, err,
}
use code_space.Domain.Approval.{
  ApprovalState, ApprovalTargetTool, parse, parse_tool, OperationResumeResult,
}
use code_space.Map.{Map}

pub record ApprovalRecord : Type 0 where
  pub approval_id : String
  pub workspace_id : String
  pub tool : ApprovalTargetTool
  pub fingerprint : String
  pub params_json : String
  pub state : ApprovalState
  pub resolved_at : Option ℕ

-- A claim that holds the resume carries the id that its guard removes on drop.
pub data ResumeClaim : Type 0 where
  replay_success : OperationResumeResult → ResumeClaim
  replay_error : ErrorBody → ResumeClaim
  execute reconcile : ApprovalRecord → String → ResumeClaim

pub data PersistedResume : Type 0 where
  success : OperationResumeResult → PersistedResume
  failed : ErrorBody → PersistedResume

-- The JSON values that a row's texts are made of.
pub data Value : Type 0 where
  boolean : Bool → Value
  string : String → Value

-- The parts of serde_json that the store calls.
pub record Serde : Type 0 where
  pub object : List (String × Value) → String
  pub to_string : PersistedResume → String
  pub from_str : String → Option PersistedResume

pub record Row : Type 0 where
  pub approval_id : String
  pub workspace_id : String
  pub tool : String
  pub fingerprint : String
  pub params_json : String
  pub state : String
  pub resolved_at : Option ℕ
  pub result_json : Option String

-- The table by its primary key, the set of resumes in progress, and the flag of `fail_next_finish`.
pub record State : Type 0 where
  pub approvals : Map String Row
  pub resume_inflight : List String
  pub fail_next_finish : Bool

-- A message that ends in a name in backquotes.
abbrev pub quoted : String → String → String
quoted message name = message ++ (name ++ "`")

abbrev pub not_found : String → ErrorBody
not_found id = new ErrorCode.approval_not_found (quoted "unknown approval_id `" id)

abbrev pub conflict : String → ErrorBody
conflict message = new ErrorCode.approval_conflict message

abbrev pub unknown_state : String → ErrorBody
unknown_state other = conflict (quoted "approval is in an unknown state `" other)

abbrev pub ambiguous : String → String → Option String → ErrorBody
ambiguous id message none = with_approval_id (new ErrorCode.approval_ambiguous message) id
ambiguous id message (some operation_id) =
    with_operation_id (with_approval_id (new ErrorCode.approval_ambiguous message) id) operation_id

-- `Row::into_record`: the tool and the state have to be names.
into_record_with : Row → Option ApprovalTargetTool → Option ApprovalState → Result ApprovalRecord
into_record_with row none _ = err (conflict (quoted "unsupported approval tool `" row.tool))
into_record_with row (some tool) none = err (conflict (quoted "unknown approval state `" row.state))
into_record_with row (some tool) (some state) = ok (record {
  approval_id = row.approval_id;
  workspace_id = row.workspace_id;
  tool = tool;
  fingerprint = row.fingerprint;
  params_json = row.params_json;
  state = state;
  resolved_at = row.resolved_at;
})

unfoldable pub into_record : Row → Result ApprovalRecord
unfolding into_record_with
into_record row = into_record_with row (parse_tool row.tool) (parse row.state)

-- The states of the unique index on active fingerprints.
abbrev pub is_active : String → Bool
is_active st = st == "pending" || (st == "granted" || (st == "queued" || st == "resuming"))

abbrev pub matches : String → String → Row → Bool
matches workspace_id fingerprint row =
    row.workspace_id == workspace_id && (row.fingerprint == fingerprint && is_active row.state)

unfoldable pub scrubbed_params : Serde → String → String → String → String
scrubbed_params serde tool workspace_id fingerprint = serde.object (
    ("scrubbed", Value.boolean true)
    ∷ ("tool", Value.string tool)
    ∷ ("workspace_id", Value.string workspace_id)
    ∷ ("fingerprint", Value.string fingerprint)
    ∷ [])
