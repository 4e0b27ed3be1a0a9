-- ===== src/Operations/Ledger.antt =====
-- crates/store/src/lib.rs: the rows of the operations table and the methods of `Store` on it.
use code_space.Prelude.{
  ℕ, String, Bool, true, false, Option, none, some, List, [], ◌∷◌, ◌++◌, ◌==◌, string_keyed,
  option_beq, if◌then◌else◌, any, is_none,
}
use code_space.Domain.Error.{ErrorBody, ErrorCode, new, Result, ok, err, ◌>>=◌}
use code_space.Domain.Patch.{
  PatchStatus, applied, checked, rejected, failed_rolled_back, failed_partial, unknown,
  ApplyPatchResult, new_result, OperationEvent, minted, finished, minted_event, finished_event,
  FileChange, OperationKind,
}
use code_space.Map.{Map, get, insert, remove, find, update, holds}

pub record StoredOperation : Type 0 where
  pub operation_id : String
  pub status : PatchStatus
  pub replayed : Bool
  pub result : ApplyPatchResult
  pub workspace_id : String
  pub created_at : ℕ
  pub finished_at : Option ℕ
  pub events : List OperationEvent

pub data Begin : Type 0 where
  fresh : String → Begin
  replayed : StoredOperation → Begin

pub record OperationStatusResult : Type 0 where
  pub operation_id : String
  pub status : PatchStatus
  pub replayed : Bool
  pub kind : OperationKind
  pub workspace_id : String
  pub created_at : ℕ
  pub finished_at : Option ℕ
  pub files : List String
  pub changes : List FileChange
  pub events : List OperationEvent

pub record Row : Type 0 where
  pub operation_id : String
  pub operation_key : Option String
  pub fingerprint : String
  pub status : String
  pub result_json : String
  pub workspace_id : String
  pub created_at : ℕ
  pub finished_at : Option ℕ
  pub events_json : Option String

-- The parts of serde_json that the ledger calls.
pub record Serde : Type 0 where
  pub result_to_string : ApplyPatchResult → String
  pub result_from_str : String → Option ApplyPatchResult
  pub events_to_string : List OperationEvent → String
  pub events_from_str : String → Option (List OperationEvent)

abbrev pub status_str : PatchStatus → String
status_str applied = "applied"
status_str checked = "checked"
status_str rejected = "rejected"
status_str failed_rolled_back = "failed_rolled_back"
status_str failed_partial = "failed_partial"
status_str unknown = "unknown"

-- The message of a constraint that an INSERT breaks is the database's.
abbrev pub sql_err : ErrorBody
sql_err = new ErrorCode.operation_not_found "UNIQUE constraint failed"

-- `Row::events`.
abbrev pub unwrap_or_default : Option (List OperationEvent) → List OperationEvent
unwrap_or_default none = []
unwrap_or_default (some events) = events

abbrev pub events_of : Serde → Option String → List OperationEvent
events_of serde none = []
events_of serde (some raw) = if raw == "" then [] else unwrap_or_default (serde.events_from_str raw)

unfoldable pub row_events : Serde → Row → List OperationEvent
row_events serde row = events_of serde row.events_json

-- `Row::into_stored`. A result that cannot be read counts as unknown.
abbrev pub unwrap_or_unknown : String → Option ApplyPatchResult → ApplyPatchResult
unwrap_or_unknown id none = new_result unknown id
unwrap_or_unknown id (some result) = result

unfoldable pub into_stored : Serde → Row → Bool → StoredOperation
into_stored serde row again =
    let read : ApplyPatchResult =
      unwrap_or_unknown row.operation_id (serde.result_from_str row.result_json) in
    record {
      operation_id = row.operation_id;
      status = read.status;
      replayed = again;
      result = record read { replayed = again };
      workspace_id = row.workspace_id;
      created_at = row.created_at;
      finished_at = row.finished_at;
      events = row_events serde row;
    }

unfoldable pub to_status : StoredOperation → OperationStatusResult
to_status stored = record {
  operation_id = stored.operation_id;
  status = stored.status;
  replayed = false;
  kind = OperationKind.patch;
  workspace_id = stored.workspace_id;
  created_at = stored.created_at;
  finished_at = stored.finished_at;
  files = stored.result.files;
  changes = stored.result.changes;
  events = stored.events;
}

-- The operations table by its primary key.
abbrev pub Ledger : Type 0
Ledger = Map String Row

abbrev pub has_key : String → Row → Bool
has_key key row = option_beq row.operation_key (some key)

unfoldable pub load_by_key : String → Ledger → Option Row
load_by_key key rows = find (has_key key) rows

abbrev pub begin_row : Serde → Option String → String → String → String → ℕ → Row
begin_row serde key workspace_id fingerprint id now = record {
  operation_id = id;
  operation_key = key;
  fingerprint = fingerprint;
  status = "unknown";
  result_json = serde.result_to_string (new_result unknown id);
  workspace_id = workspace_id;
  created_at = now;
  finished_at = none;
  events_json = some (serde.events_to_string (minted_event now ∷ []));
}

-- `begin`, with the id that it mints and the time.
abbrev pub begin_fresh :
    Serde → Option String → String → String → String → ℕ → Ledger → Ledger × Result Begin
begin_fresh serde key workspace_id fingerprint id now rows = elim (get id rows) [
  | some taken ↦ (rows, err sql_err)
  | none ↦
      (insert id (begin_row serde key workspace_id fingerprint id now) rows, ok (Begin.fresh id))
]

abbrev pub key_conflict : ErrorBody
key_conflict = new ErrorCode.operation_key_conflict "operation_key reused with a different request"

-- What a begun operation of the same key answers.
abbrev pub answer : Serde → Row → String → Result Begin
answer serde row fingerprint =
    if row.fingerprint == fingerprint
    then ok (Begin.replayed (into_stored serde row true))
    else err key_conflict

unfoldable pub begin :
    Serde → Option String → String → String → String → ℕ → Ledger → Ledger × Result Begin
begin serde none workspace_id fingerprint id now rows =
    begin_fresh serde none workspace_id fingerprint id now rows
begin serde (some key) workspace_id fingerprint id now rows = elim (load_by_key key rows) [
  | some row ↦ (rows, answer serde row fingerprint)
  | none ↦ begin_fresh serde (some key) workspace_id fingerprint id now rows
]

abbrev pub is_unfinished : Row → Bool
is_unfinished row = is_none row.finished_at

unfoldable pub abandon : String → Ledger → Ledger × Bool
abandon id rows =
    if holds is_unfinished (get id rows) then (remove id rows, true) else (rows, false)

-- `finish` at the time `now`.
abbrev pub is_minted : OperationEvent → Bool
is_minted event = elim event.name [ minted ↦ true | finished ↦ false ]

abbrev pub with_minted : ℕ → List OperationEvent → List OperationEvent
with_minted created_at events =
    if any is_minted events then events else minted_event created_at ∷ events

abbrev pub finish_events : Serde → Row → PatchStatus → ℕ → List OperationEvent
finish_events serde row status now =
    with_minted row.created_at (row_events serde row) ++ (finished_event now status ∷ [])

abbrev pub finished_row : Serde → ApplyPatchResult → ℕ → Row → Row
finished_row serde result now row = record row {
  status = status_str result.status;
  result_json = serde.result_to_string result;
  finished_at = some now;
  events_json = some (serde.events_to_string (finish_events serde row result.status now));
}

unfoldable pub finish : Serde → String → ApplyPatchResult → ℕ → Ledger → Ledger × Result (Unit {0})
finish serde id result now rows = elim (get id rows) [
  | none ↦ (rows, err (new ErrorCode.operation_not_found "unknown operation_id"))
  | some row ↦ (update id (λ r. true) (finished_row serde result now) rows, ok tt)
]

-- `Store::get`.
unfoldable pub get_operation : Serde → String → Ledger → Result StoredOperation
get_operation serde id rows = elim (get id rows) [
  | none ↦ err (new ErrorCode.operation_not_found "unknown operation_id")
  | some row ↦ ok (into_stored serde row false)
]

unfoldable pub status_lookup :
    Serde → Option String → Option String → Ledger → Result OperationStatusResult
status_lookup serde (some id) none rows =
    get_operation serde id rows >>= (λ stored. ok (to_status stored))
status_lookup serde none (some key) rows = elim (load_by_key key rows) [
  | none ↦ err (new ErrorCode.operation_not_found "unknown operation_key")
  | some row ↦ ok (to_status (into_stored serde row false))
]
status_lookup serde _ _ rows =
    err (new ErrorCode.operation_not_found "provide exactly one of operation_id or operation_key")
