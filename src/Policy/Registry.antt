-- ===== src/Policy/Registry.antt =====
-- crates/policy/src/lib.rs: the registry of workspaces and environments, and how it is loaded. The
-- configuration is read by serde_json, which is a parameter, as is `PathBuf::from`.
use Prim.Native.String.{◌++◌}
use code_space.Prelude.{
  String, ◌⊎◌, Bool, false, not, Option, none, some, List, [], ◌∷◌, ◌==◌, string_keyed, nat_keyed,
  ◌||◌, if◌then◌else◌, inl, inr,
}
use code_space.Domain.Error.{ErrorCode, new, Result, ok_or}
use code_space.Domain.Approval.{ApprovalsMode}
use code_space.Map.{Map, get, insert}
use code_space.Approvals.Types.{quoted}
use code_space.Policy.Types.{
  Profile, EnvironmentKind, host, NetworkAxis, restricted, off, ResourceRequest, Resources, PathBuf,
  Workspace, Environment, default_environment_id,
}

pub record Registry : Type 0 where
  pub environments : Map String Environment
  pub workspaces : Map String Workspace

pub record FileEnvironment : Type 0 where
  pub kind : EnvironmentKind

pub record FileWorkspace : Type 0 where
  pub root : String
  pub profile : Profile
  pub environment : Option String
  pub network : NetworkAxis
  pub approvals : ApprovalsMode
  pub resources : Resources

-- The entries in the order of their keys.
pub record FileConfig : Type 0 where
  pub environments : List (String × FileEnvironment)
  pub workspaces : List (String × FileWorkspace)

abbrev pub default_resources : Resources
default_resources = record { participation = off; request = none }

abbrev pub new_workspace : String → PathBuf → Profile → Workspace
new_workspace id root profile = record {
  id = id;
  root = root;
  profile = profile;
  environment_id = default_environment_id;
  environment_kind = host;
  network = restricted;
  approvals = ApprovalsMode.off;
  resources = default_resources;
}

abbrev pub local_host : Environment
local_host = record { id = default_environment_id; kind = host }

abbrev pub new_registry : Registry
new_registry = record { environments = (default_environment_id, local_host) ∷ []; workspaces = [] }

unfoldable pub insert_workspace : Workspace → Registry → Registry
insert_workspace w r = record r { workspaces = insert w.id w r.workspaces }

unfoldable pub insert_environment : Environment → Registry → Registry
insert_environment e r = record r { environments = insert e.id e r.environments }

unfoldable pub get_workspace : String → Registry → Result Workspace
get_workspace id r =
    ok_or (get id r.workspaces)
      (new ErrorCode.workspace_not_found (quoted "unknown workspace_id `" id))

unfoldable pub get_environment : String → Registry → Result Environment
get_environment id r =
    ok_or (get id r.environments) (new ErrorCode.unauthorized (quoted "unknown environment `" id))

unfoldable pub load_environments : List (String × FileEnvironment) → Registry → Registry
load_environments [] r = r
load_environments ((id, entry) ∷ entries) r =
    load_environments entries (insert_environment (record { id = id; kind = entry.kind }) r)

abbrev pub is_zero_request : Option ResourceRequest → Bool
is_zero_request none = false
is_zero_request (some q) = q.cpu_milli == 0 || (q.memory_bytes == 0 || q.tasks == 0)

abbrev pub or_local : Option String → String
or_local none = default_environment_id
or_local (some id) = id

abbrev pub loaded : String → PathBuf → FileWorkspace → Environment → Workspace
loaded id root entry environment = record {
  id = id;
  root = root;
  profile = entry.profile;
  environment_id = environment.id;
  environment_kind = environment.kind;
  network = entry.network;
  approvals = entry.approvals;
  resources = entry.resources;
}

-- One workspace of the configuration: an error, or what is inserted.
unfoldable pub check_workspace :
    (String → PathBuf) → String → FileWorkspace → Registry → String ⊎ Workspace
check_workspace path id entry r =
    if not (path entry.root).absolute
    then inl ("workspace `" ++ (id ++ "` root must be absolute"))
    else if is_zero_request entry.resources.request
    then inl ("workspace `" ++ (id ++ "` resources.request quantities must be positive"))
    else elim (get (or_local entry.environment) r.environments) [
      | none ↦ inl (
          "workspace `"
          ++ (id ++ ("` references unknown environment `" ++ (or_local entry.environment ++ "`"))))
      | some environment ↦ inr (loaded id (path entry.root) entry environment)
    ]

unfoldable pub load_workspaces :
    (String → PathBuf) → List (String × FileWorkspace) → Registry → String ⊎ Registry
unfolding check_workspace
load_workspaces path [] r = inr r
load_workspaces path ((id, entry) ∷ entries) r = elim (check_workspace path id entry r) [
  | inl e ↦ inl e
  | inr w ↦ load_workspaces path entries (insert_workspace w r)
]

unfoldable pub load_json :
    (String → String ⊎ FileConfig) → (String → PathBuf) → String → String ⊎ Registry
load_json from_str path text = elim (from_str text) [
  | inl e ↦ inl e
  | inr parsed ↦
      load_workspaces path parsed.workspaces (load_environments parsed.environments new_registry)
]
