-- ===== src/Policy/Types.antt =====
-- crates/policy/src/lib.rs, permission.rs and environment.rs, with crates/domain/src/profile.rs: the
-- settings of a workspace.
use code_space.Prelude.{ℕ, String, Bool, true, false, Option, none, some, List}
use code_space.Domain.Approval.{ApprovalsMode}

pub data Profile : Type 0 where
  read_only workspace_write : Profile

pub data Action : Type 0 where
  read write exec : Action

pub data EnvironmentKind : Type 0 where
  host linux_container : EnvironmentKind

pub data NetworkAxis : Type 0 where
  restricted enabled : NetworkAxis

pub data PathAccess : Type 0 where
  read write deny : PathAccess

pub record PathRule : Type 0 where
  pub pattern : String
  pub access : PathAccess

pub record PermissionProfile : Type 0 where
  pub paths : List PathRule
  pub process_exec : Bool
  pub network : NetworkAxis

pub data Participation : Type 0 where
  off required : Participation

pub data EnforcementLevel : Type 0 where
  accounted cooperative kernel : EnforcementLevel

pub record ResourceMinimum : Type 0 where
  pub cpu : EnforcementLevel
  pub memory : EnforcementLevel
  pub pids : EnforcementLevel

pub record ResourceRequest : Type 0 where
  pub cpu_milli : ℕ
  pub memory_bytes : ℕ
  pub tasks : ℕ
  pub minimum : ResourceMinimum

pub record Resources : Type 0 where
  pub participation : Participation
  pub request : Option ResourceRequest

pub record ClientClaims : Type 0 where
  pub approved : Option Bool
  pub user_id : Option String

-- A path as its names, without the separators.
pub record PathBuf : Type 0 where
  pub absolute : Bool
  pub names : List String

pub record Workspace : Type 0 where
  pub id : String
  pub root : PathBuf
  pub profile : Profile
  pub environment_id : String
  pub environment_kind : EnvironmentKind
  pub network : NetworkAxis
  pub approvals : ApprovalsMode
  pub resources : Resources

pub record Environment : Type 0 where
  pub id : String
  pub kind : EnvironmentKind

abbrev pub default_environment_id : String
default_environment_id = "local"

abbrev pub default_minimum : ResourceMinimum
default_minimum = record { cpu = accounted; memory = accounted; pids = accounted }

abbrev pub default_request : ResourceRequest
default_request = record {
  cpu_milli = 250;
  memory_bytes = 268435456;
  tasks = 32;
  minimum = default_minimum;
}

-- `Resources::request`.
abbrev pub request_of : Resources → ResourceRequest
request_of r = elim r.request [ none ↦ default_request | some q ↦ q ]

abbrev pub allows_mutation : Profile → Bool
allows_mutation workspace_write = true
allows_mutation read_only = false
