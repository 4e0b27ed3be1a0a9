-- ===== src/Policy/Paths.antt =====
-- crates/policy/src/lib.rs: `resolve_path`. The parts of std::path and the file system that it calls
-- are parameters.
use code_space.Prelude.{
  ℕ, suc, zero, String, Bool, true, false, not, Option, none, some, List, [], ◌∷◌, ◌++◌, ◌==◌,
  string_keyed, ◌&&◌, ◌||◌, if◌then◌else◌,
}
use code_space.Domain.Error.{ErrorBody, ErrorCode, new, Result, ok, err, ◌>>=◌}
use code_space.Policy.Types.{PathBuf, Workspace}

pub data Component : Type 0 where
  prefix root_dir cur_dir parent_dir : Component
  normal : String → Component

-- `Path::is_absolute`, `Path::components`, the test for a NUL, and `Path::canonicalize`.
pub record Paths : Type 0 where
  pub is_absolute : String → Bool
  pub components : String → List Component
  pub has_nul : String → Bool
  pub canonicalize : PathBuf → Option PathBuf

abbrev pub escape : String → ErrorBody
escape detail = new ErrorCode.path_escape detail

-- `PathBuf::pop` on the names of a relative path.
unfoldable pub pop : List String → Option (List String)
pop [] = none
pop (x ∷ []) = some []
pop (x ∷ y ∷ ys) = elim (pop (y ∷ ys)) [ none ↦ none | some zs ↦ some (x ∷ zs) ]

-- The loop over the components.
unfoldable pub walk : List String → List Component → Result (List String)
walk rel [] = ok rel
walk rel (cur_dir ∷ cs) = walk rel cs
walk rel (normal part ∷ cs) = walk (rel ++ part ∷ []) cs
walk rel (parent_dir ∷ cs) = elim (pop rel) [
  | none ↦ err (escape "`..` escapes the workspace")
  | some up ↦ walk up cs
]
walk rel (prefix ∷ cs) = err (escape "absolute path")
walk rel (root_dir ∷ cs) = err (escape "absolute path")

abbrev pub starts_with : List String → List String → Bool
starts_with [] names = true
starts_with (x ∷ xs) [] = false
starts_with (x ∷ xs) (y ∷ ys) = y == x && starts_with xs ys

abbrev pub root_of : Paths → Workspace → PathBuf
root_of lib w = elim (lib.canonicalize w.root) [ none ↦ w.root | some root ↦ root ]

abbrev pub joined : PathBuf → List String → PathBuf
joined root rel = record root { names = root.names ++ rel }

abbrev pub inside : PathBuf → List String → Result PathBuf
inside root rel =
    if not (starts_with root.names (joined root rel).names)
    then err (escape "resolved path left the workspace")
    else ok (joined root rel)

unfoldable pub resolve_path : Paths → Workspace → String → Result PathBuf
unfolding walk
resolve_path lib w relative =
    if relative == "" || lib.is_absolute relative
    then err (escape "absolute or empty path")
    else if lib.has_nul relative
    then err (escape "NUL in path")
    else walk [] (lib.components relative) >>= λ rel. inside (root_of lib w) rel

-- Whether a path from a directory so deep never goes above the top.
unfoldable pub stays : ℕ → List Component → Bool
stays n [] = true
stays n (cur_dir ∷ cs) = stays n cs
stays n (normal part ∷ cs) = stays (suc n) cs
stays zero (parent_dir ∷ cs) = false
stays (suc n) (parent_dir ∷ cs) = stays n cs
stays n (prefix ∷ cs) = false
stays n (root_dir ∷ cs) = false
