-- ===== src/Domain/Patch.antt =====
-- crates/domain/src/patch.rs, and the results of crates/domain/src/process.rs and work.rs that a
-- resumed approval carries.
use code_space.Prelude.{ℕ, String, Bool, false, Option, none, some, List, []}

pub data PatchStatus : Type 0 where
  applied checked rejected failed_rolled_back failed_partial unknown : PatchStatus

pub data FileChangeKind : Type 0 where
  add update delete move : FileChangeKind

pub record FileChange : Type 0 where
  pub path : String
  pub before_version : Option String
  pub after_version : Option String
  pub kind : FileChangeKind

pub record CoordinationHint : Type 0 where
  pub work_id : String
  pub pending_user_items : ℕ
  pub queue_revision : ℕ

pub record ApplyPatchResult : Type 0 where
  pub status : PatchStatus
  pub operation_id : String
  pub replayed : Bool
  pub files : List String
  pub changes : List FileChange
  pub work_id : Option String
  pub coordination : Option CoordinationHint

-- `ApplyPatchResult::new`.
abbrev pub new_result : PatchStatus → String → ApplyPatchResult
new_result status operation_id = record {
  status = status;
  operation_id = operation_id;
  replayed = false;
  files = [];
  changes = [];
  work_id = none;
  coordination = none;
}

pub data OperationEventName : Type 0 where
  minted finished : OperationEventName

pub record OperationEvent : Type 0 where
  pub at : ℕ
  pub name : OperationEventName
  pub status : Option PatchStatus
  pub reason : Option String

abbrev pub minted_event : ℕ → OperationEvent
minted_event at = record { at = at; name = minted; status = none; reason = none }

abbrev pub finish_reason : PatchStatus → Option String
finish_reason unknown = some "unknown"
finish_reason _ = none

abbrev pub finished_event : ℕ → PatchStatus → OperationEvent
finished_event at status = record {
  at = at;
  name = finished;
  status = some status;
  reason = finish_reason status;
}

pub data OperationKind : Type 0 where
  patch : OperationKind

pub data ExecDispatchStatus : Type 0 where
  confirmed unknown : ExecDispatchStatus

pub record ExecCommandResult : Type 0 where
  pub process_id : String
  pub dispatch_status : ExecDispatchStatus
  pub coordination : Option CoordinationHint
