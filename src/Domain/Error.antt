-- ===== src/Domain/Error.antt =====
-- crates/domain/src/error.rs: the product error codes and the body that carries one.
use code_space.Prelude.{String, Bool, true, false, Option, none, some}

pub data ErrorCode : Type 0 where
  unauthorized workspace_not_found workspace_busy resource_queue_full : ErrorCode
  invalid_patch invalid_command process_spawn_failed path_escape : ErrorCode
  file_not_found path_not_directory file_operation_failed symlink_rejected : ErrorCode
  special_file_rejected add_file_exists move_destination_exists version_conflict : ErrorCode
  operation_key_conflict operation_not_found process_not_found process_not_tty : ErrorCode
  process_not_running output_limit timeout work_not_found work_closed : ErrorCode
  intent_not_found intent_already_claimed intent_not_editable intent_revision_conflict : ErrorCode
  queue_not_empty approval_required approval_not_found approval_conflict : ErrorCode
  approval_ambiguous resource_policy_unsupported managed_launch_unavailable : ErrorCode
  resource_unavailable resource_authority_unavailable admission_unknown : ErrorCode
  recovery_pending runner_disconnected runner_reconnecting stale_controller internal : ErrorCode

pub record ErrorBody : Type 0 where
  pub code : ErrorCode
  pub message : String
  pub operation_id : Option String
  pub approval_id : Option String

-- `ErrorBody::new`.
abbrev pub new : ErrorCode → String → ErrorBody
new code message = record {
  code = code;
  message = message;
  operation_id = none;
  approval_id = none;
}

abbrev pub with_operation_id : ErrorBody → String → ErrorBody
with_operation_id err id = record err { operation_id = some id }

abbrev pub with_approval_id : ErrorBody → String → ErrorBody
with_approval_id err id = record err { approval_id = some id }

-- `Result<T, ErrorBody>`.
pub data Result {ℓ} (A : Type ℓ) : Type ℓ where
  ok : A → Result A
  err : ErrorBody → Result A

infixl 5 ◌>>=◌
abbrev pub ◌>>=◌ {ℓ κ} : {A : Type ℓ} {B : Type κ} → Result A → (A → Result B) → Result B
ok a >>= f = f a
err e >>= f = err e

abbrev pub is_ok {ℓ} : {A : Type ℓ} → Result A → Bool
is_ok (ok a) = true
is_ok (err e) = false

-- `ok_or_else`.
abbrev pub ok_or {ℓ} : {A : Type ℓ} → Option A → ErrorBody → Result A
ok_or none e = err e
ok_or (some a) e = ok a
