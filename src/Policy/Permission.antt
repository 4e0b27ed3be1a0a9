-- ===== src/Policy/Permission.antt =====
-- crates/policy/src/permission.rs and environment.rs, and `allow` of crates/policy/src/lib.rs: what a
-- workspace's profile and its environment permit.
use Prim.Native.String.{◌++◌}
use code_space.Prelude.{
  String, ◌≡◌, Bool, true, false, not, [], ◌∷◌, ◌||◌, arith, if◌then◌else◌, any,
}
use code_space.Domain.Error.{ErrorBody, ErrorCode, new, Result, ok, err, is_ok}
use code_space.Policy.Types.{
  Profile, read_only, workspace_write, Action, exec, EnvironmentKind, host, linux_container,
  restricted, PathAccess, PathRule, PermissionProfile, ClientClaims, Workspace, allows_mutation,
}

abbrev pub from_workspace_profile : Profile → PermissionProfile
from_workspace_profile read_only = record {
  paths = record { pattern = "**"; access = PathAccess.read } ∷ [];
  process_exec = false;
  network = restricted;
}
from_workspace_profile workspace_write = record {
  paths = record { pattern = "**"; access = PathAccess.write } ∷ [];
  process_exec = true;
  network = restricted;
}

abbrev pub is_deny : PathAccess → Bool
is_deny PathAccess.deny = true
is_deny _ = false

abbrev pub is_write : PathAccess → Bool
is_write PathAccess.write = true
is_write _ = false

unfoldable pub allows : PermissionProfile → Action → Bool
unfolding any
allows p Action.read = any (λ (r : PathRule). not (is_deny r.access)) p.paths
allows p Action.write = any (λ (r : PathRule). is_write r.access) p.paths
allows p exec = p.process_exec

abbrev pub permitted : Bool → Result (Unit {0})
permitted t = if t then ok tt else err (new ErrorCode.unauthorized "workspace profile is read-only")

unfoldable pub allow : Workspace → Action → ClientClaims → Result (Unit {0})
unfolding allows
allow w Action.read claims = ok tt
allow w Action.write claims = permitted (allows (from_workspace_profile w.profile) Action.write)
allow w exec claims = permitted (allows (from_workspace_profile w.profile) exec)

abbrev pub kind_str : EnvironmentKind → String
kind_str host = "host"
kind_str linux_container = "linux-container"

abbrev pub exec_supported : EnvironmentKind → Bool
exec_supported host = true
exec_supported linux_container = false

abbrev pub file_read_supported : EnvironmentKind → Bool
file_read_supported host = true
file_read_supported linux_container = false

abbrev pub file_write_supported : EnvironmentKind → Bool
file_write_supported host = true
file_write_supported linux_container = false

pub data EnvironmentDispatchError : Type 0 where
  unsupported_exec unsupported_file_read unsupported_file_write :
      EnvironmentKind → EnvironmentDispatchError

abbrev pub into_error_body : EnvironmentDispatchError → ErrorBody
into_error_body (unsupported_exec kind) =
    new ErrorCode.unauthorized (kind_str kind ++ " environment is registered but not an exec path")
into_error_body (unsupported_file_read kind) =
    new ErrorCode.unauthorized
      (kind_str kind ++ " environment is registered but not a file-read path")
into_error_body (unsupported_file_write kind) =
    new ErrorCode.unauthorized
      (kind_str kind ++ " environment is registered but not a file-write path")

abbrev pub require : Bool → EnvironmentDispatchError → Result (Unit {0})
require supported e = if supported then ok tt else err (into_error_body e)

unfoldable pub require_exec : Workspace → Result (Unit {0})
require_exec w = require (exec_supported w.environment_kind) (unsupported_exec w.environment_kind)

unfoldable pub require_file_read : Workspace → Result (Unit {0})
require_file_read w =
    require (file_read_supported w.environment_kind) (unsupported_file_read w.environment_kind)

unfoldable pub require_file_write : Workspace → Result (Unit {0})
require_file_write w =
    require (file_write_supported w.environment_kind) (unsupported_file_write w.environment_kind)

abbrev is_read : Action → Bool
is_read Action.read = true
is_read _ = false

-- Whatever a client claims, an action is allowed exactly when it is a read or the profile of the
-- workspace allows mutations.
pub allow_profile :
    (w : Workspace) (a : Action) (claims : ClientClaims)
    → is_ok (allow w a claims) ≡ (is_read a || allows_mutation w.profile)
unfolding allow allows any
allow_profile w a claims = ground arith
