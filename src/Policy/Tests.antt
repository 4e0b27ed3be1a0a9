-- ===== src/Policy/Tests.antt =====
-- A small registry and some paths, with the theorems at them.
use code_space.Prelude.{
  String, ◌≡◌, refl, Bool, true, false, not, none, some, List, [], ◌∷◌, inr, All, string_keyed,
  nat_keyed, ◌==◌, ◌&&◌, ◌||◌, if◌then◌else◌,
}
use code_space.Domain.Error.{is_ok}
use code_space.Domain.Approval.{ApprovalsMode}
use code_space.Map.{get, insert, remove}
use code_space.Policy.Types.{
  read_only, workspace_write, linux_container, restricted, Workspace, PathBuf, default_request,
  Participation,
}
use code_space.Policy.Paths.{
  Component, parent_dir, normal, Paths, pop, walk, joined, resolve_path, stays,
}
use code_space.Policy.Inside.{resolve_path-stays, resolve_path_inside}
use code_space.Policy.Registry.{
  Registry, FileConfig, new_registry, new_workspace, insert_workspace, insert_environment,
  load_json, load_workspaces, load_environments, check_workspace,
}
use code_space.Policy.Loaded.{IsGoverned, load_json-IsGoverned}

abbrev root : PathBuf
root = record { absolute = true; names = "srv" ∷ "demo" ∷ [] }

abbrev workspace : Workspace
workspace = new_workspace "demo" root workspace_write

-- Paths with their components, as std::path gives them for `a/../b` and the others.
abbrev parts : String → List Component
parts relative =
    if relative == "a/../b" then normal "a" ∷ parent_dir ∷ normal "b" ∷ [] else parent_dir ∷ []

abbrev lib : Paths
lib = record {
  is_absolute = λ p. p == "/";
  components = parts;
  has_nul = λ p. false;
  canonicalize = λ p. none;
}

abbrev is_bare : String → Bool
is_bare p = p == "" || lib.is_absolute p

resolve_path-stays_example :
    is_ok (resolve_path lib workspace "a/../b")
    ≡ (not (is_bare "a/../b") && (not (lib.has_nul "a/../b") && stays 0 (lib.components "a/../b")))
resolve_path-stays_example = resolve_path-stays lib workspace "a/../b"

abbrev IsShort : String → Type 0
IsShort name = (name == "..") ≡ false

abbrev inner : PathBuf
inner = record root { names = "srv" ∷ "demo" ∷ "b" ∷ [] }

resolve_path_inside_example : (rel : List String) × (inner ≡ joined root rel) × All IsShort rel
unfolding resolve_path walk pop
resolve_path_inside_example =
    resolve_path_inside IsShort lib workspace "a/../b" inner (refl, (tt, (refl, tt))) refl

abbrev config : FileConfig
config = record {
  environments = ("box", record { kind = linux_container }) ∷ [];
  workspaces =
      (
        "demo",
        record {
          root = "/srv/demo";
          profile = read_only;
          environment = some "box";
          network = restricted;
          approvals = ApprovalsMode.off;
          resources = record {
            participation = Participation.required;
            request = some default_request;
          };
        },
      )
      ∷ [];
}

abbrev path : String → PathBuf
path p = root

abbrev demo : Workspace
demo = record workspace {
  profile = read_only;
  environment_id = "box";
  environment_kind = linux_container;
  resources = record { participation = Participation.required; request = some default_request };
}

abbrev registry : Registry
registry =
    insert_workspace demo
      (insert_environment (record { id = "box"; kind = linux_container }) new_registry)

load_json-IsGoverned_example : IsGoverned registry demo
unfolding load_json load_workspaces load_environments check_workspace get insert remove
    insert_workspace insert_environment
load_json-IsGoverned_example =
    load_json-IsGoverned (λ text. inr config) path "{}" "demo" registry demo refl refl
