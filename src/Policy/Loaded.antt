-- ===== src/Policy/Loaded.antt =====
-- crates/policy/src/lib.rs: what holds of every workspace that was loaded.
use code_space.Prelude.{
  String, ◌≡◌, ◌⊎◌, refl, sym, ap, subst, ◌∙◌, true, false, Option, none, some, List, [], ◌∷◌, ◌==◌,
  ==_iff, string_keyed, nat_keyed, inl, inr, arith, Bool-cases, Option-cases, Sum-cases, is_inr,
}
use code_space.Map.{get, get-insert}
use code_space.Policy.Types.{default_environment_id, Workspace, Environment, PathBuf}
use code_space.Policy.Registry.{
  Registry, FileConfig, FileWorkspace, FileEnvironment, insert_workspace, insert_environment,
  is_zero_request, or_local, loaded, check_workspace, load_workspaces, load_environments, load_json,
  new_registry,
}

-- Its root is absolute, what it requests is positive, and its environment is registered, of the kind
-- that the workspace has.
pub record IsGoverned (r : Registry) (w : Workspace) : Type 0 where
  pub rooted : w.root.absolute ≡ true
  pub positive : is_zero_request w.resources.request ≡ false
  pub environment : Environment
  pub registered : get w.environment_id r.environments ≡ some environment
  pub kind : environment.kind ≡ w.environment_kind

abbrev IsGovernedAt : Registry → Option Workspace → Type 0
IsGovernedAt r none = Unit
IsGovernedAt r (some w) = IsGoverned r w

-- The environments stand under their own ids.
abbrev IsNamedAt : String → Option Environment → Type 0
IsNamedAt id none = Unit
IsNamedAt id (some e) = e.id ≡ id

insert-IsNamedAt :
    (e : Environment) (r : Registry) (j : String)
    → IsNamedAt j (get j r.environments)
    → IsNamedAt j (get j (insert_environment e r).environments)
unfolding insert_environment
insert-IsNamedAt e r j h =
    rw (get-insert e.id j e r.environments)
      (elim (Bool-cases (e.id == j)) [ inl t ↦ rw t ((==_iff e.id j).0 t) | inr t ↦ rw t h ])

environments-IsNamedAt :
    (entries : List (String × FileEnvironment)) (r : Registry)
    → ((j : String) → IsNamedAt j (get j r.environments))
    → (j : String) → IsNamedAt j (get j (load_environments entries r).environments)
unfolding load_environments
environments-IsNamedAt [] r h = h
environments-IsNamedAt ((id, entry) ∷ entries) r h =
    environments-IsNamedAt entries (insert_environment (record { id = id; kind = entry.kind }) r)
      (λ j. insert-IsNamedAt (record { id = id; kind = entry.kind }) r j (h j))

check-IsGoverned :
    (path : String → PathBuf) (id : String) (entry : FileWorkspace) (r : Registry) (w : Workspace)
    → ((j : String) → IsNamedAt j (get j r.environments))
    → check_workspace path id entry r ≡ inr w
    → IsGoverned r w
unfolding check_workspace
check-IsGoverned path id entry r w named h = elim (Bool-cases (path entry.root).absolute) [
  | inr a ↦
      let dead : is_inr (check_workspace path id entry r) ≡ false = rw (check_workspace, a) refl in
      cc
  | inl a ↦ elim (Bool-cases (is_zero_request entry.resources.request)) [
    | inl z ↦
        let dead : is_inr (check_workspace path id entry r) ≡ false =
          rw (check_workspace, a, z) refl in
        cc
    | inr z ↦ elim (Option-cases (get (or_local entry.environment) r.environments)) [
      | inl e ↦
          let dead : is_inr (check_workspace path id entry r) ≡ false =
            rw (check_workspace, a, z, e) refl in
          cc
      | inr (env, e) ↦
          let done : check_workspace path id entry r ≡ inr (loaded id (path entry.root) entry env) =
            ground (arith, a, z, e) in
          let same : loaded id (path entry.root) entry env ≡ w = cc in
          let name : env.id ≡ or_local entry.environment =
            subst (λ o. IsNamedAt (or_local entry.environment) o) e
              (named (or_local entry.environment)) in
          subst (λ v. IsGoverned r v) same
            (record {
              rooted = a;
              positive = z;
              environment = env;
              registered = ap (λ k. get k r.environments) name ∙ e;
              kind = refl;
            })
    ]
  ]
]

insert-IsGoverned :
    (w v : Workspace) (r : Registry) → IsGoverned r v → IsGoverned (insert_workspace w r) v
unfolding insert_workspace
insert-IsGoverned w v r g = record {
  rooted = g.rooted;
  positive = g.positive;
  environment = g.environment;
  registered = g.registered;
  kind = g.kind;
}

insert-IsGovernedAt :
    (w : Workspace) (r : Registry) (j : String)
    → IsGoverned r w
    → IsGovernedAt r (get j r.workspaces)
    → IsGovernedAt (insert_workspace w r) (get j (insert_workspace w r).workspaces)
unfolding insert_workspace
insert-IsGovernedAt w r j g h =
    rw (get-insert w.id j w r.workspaces) (elim (Bool-cases (w.id == j)) [
      | inl m ↦ rw m (insert-IsGoverned w w r g)
      | inr m ↦ rw m (others (get j r.workspaces) h)
    ])
  where
    others : (o : Option Workspace) → IsGovernedAt r o → IsGovernedAt (insert_workspace w r) o
    others none k = tt
    others (some v) k = insert-IsGoverned w v r k

environments-workspaces :
    (entries : List (String × FileEnvironment)) (r : Registry)
    → (load_environments entries r).workspaces ≡ r.workspaces
unfolding load_environments insert_environment
environments-workspaces [] r = refl
environments-workspaces ((id, entry) ∷ entries) r =
    environments-workspaces entries (insert_environment (record { id = id; kind = entry.kind }) r)

new_registry-IsNamedAt : (j : String) → IsNamedAt j (get j new_registry.environments)
unfolding get
new_registry-IsNamedAt j = elim (Bool-cases (default_environment_id == j)) [
  | inl m ↦ rw m ((==_iff default_environment_id j).0 m)
  | inr m ↦ rw m tt
]

workspaces-IsGoverned :
    (path : String → PathBuf) (entries : List (String × FileWorkspace)) (r t : Registry)
    → ((j : String) → IsNamedAt j (get j r.environments))
    → ((j : String) → IsGovernedAt r (get j r.workspaces))
    → load_workspaces path entries r ≡ inr t
    → (j : String) → IsGovernedAt t (get j t.workspaces)
unfolding load_workspaces insert_workspace
workspaces-IsGoverned path [] r t named held h j =
    let same : r ≡ t = cc in subst (λ x. IsGovernedAt x (get j x.workspaces)) same (held j)
workspaces-IsGoverned path ((id, entry) ∷ entries) r t named held h j =
    elim (Sum-cases (check_workspace path id entry r)) [
      | inl (e, q) ↦
          let dead : load_workspaces path ((id, entry) ∷ entries) r ≡ inl e =
            rw (load_workspaces, q) refl in
          cc
      | inr (w, q) ↦
          let rest : load_workspaces path ((id, entry) ∷ entries) r
              ≡ load_workspaces path entries (insert_workspace w r) =
            rw (load_workspaces, q) refl in
          workspaces-IsGoverned path entries (insert_workspace w r) t named
            (λ i. insert-IsGovernedAt w r i (check-IsGoverned path id entry r w named q) (held i))
            (sym rest ∙ h) j
    ]

-- Every workspace of a registry that was loaded has an absolute root, a registered environment of the
-- kind that it carries, and a resource request, where it has one, whose quantities are positive.
pub load_json-IsGoverned :
    (from_str : String → String ⊎ FileConfig) (path : String → PathBuf) (text id : String)
    (r : Registry) (w : Workspace)
    → load_json from_str path text ≡ inr r
    → get id r.workspaces ≡ some w
    → IsGoverned r w
unfolding load_json get
load_json-IsGoverned from_str path text id r w h found = go (from_str text) refl
  where
    go : (o : String ⊎ FileConfig) → from_str text ≡ o → IsGoverned r w
    go (inl e) q = let dead : load_json from_str path text ≡ inl e = rw (load_json, q) refl in cc
    go (inr parsed) q =
        let start : Registry = load_environments parsed.environments new_registry in
        let loads : load_json from_str path text ≡ load_workspaces path parsed.workspaces start =
          rw (load_json, q) refl in
        let unheld : (j : String) → IsGovernedAt start (get j start.workspaces) = λ j.
          subst (λ m. IsGovernedAt start (get j m))
            (sym (environments-workspaces parsed.environments new_registry)) tt in
        let all_governed : IsGovernedAt r (get id r.workspaces) =
          workspaces-IsGoverned path parsed.workspaces start r
            (environments-IsNamedAt parsed.environments new_registry new_registry-IsNamedAt) unheld
            (sym loads ∙ h) id in
        subst (λ o. IsGovernedAt r o) found all_governed
