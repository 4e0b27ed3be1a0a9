-- ===== src/Policy/Inside.antt =====
-- crates/policy/src/lib.rs: which paths `resolve_path` accepts, and where they lead.
use code_space.Prelude.{
  suc, String, ◌≡◌, ◌⊎◌, refl, sym, ap, subst, ◌∙◌, true, false, not, none, some, List, [], ◌∷◌,
  ◌++◌, ◌==◌, ==_refl, string_keyed, ◌&&◌, ◌||◌, All, All-append, length, length-append, arith, inl,
  inr,
}
use code_space.Domain.Error.{Result, ok, err, is_ok, ◌>>=◌}
use code_space.Policy.Types.{PathBuf, Workspace}
use code_space.Policy.Paths.{
  Component, prefix, root_dir, cur_dir, parent_dir, normal, Paths, pop, walk, starts_with, root_of,
  joined, inside, resolve_path, stays,
}

-- What a pop takes away.
record IsPop (P : String → Type 0) (rel up : List String) : Type 0 where
  shorter : length rel ≡ suc (length up)
  keeps : All P rel → All P up

pop_cases :
    (P : String → Type 0) (rel : List String)
    → ((pop rel ≡ none) × (length rel ≡ 0))
      ⊎ ((up : List String) × (pop rel ≡ some up) × IsPop P rel up)
unfolding pop
pop_cases P [] = inl (refl, refl)
pop_cases P (x ∷ []) = inr ([], refl, record { shorter = refl; keeps = λ h. tt })
pop_cases P (x ∷ y ∷ ys) = elim (pop_cases P (y ∷ ys)) [
  | inl (e, z) ↦ cc
  | inr (zs, e, k) ↦ inr (
    x ∷ zs,
    rw (pop, e) refl,
    record { shorter = ap (λ n. suc n) k.shorter; keeps = λ h. (h.0, k.keeps h.1) },
  )
]

abbrev pub OfName : (String → Type 0) → Component → Type 0
OfName P (normal part) = P part
OfName P _ = Unit

walk-stays : (rel : List String) (cs : List Component) → is_ok (walk rel cs) ≡ stays (length rel) cs
unfolding walk stays
walk-stays rel [] = refl
walk-stays rel (cur_dir ∷ cs) = walk-stays rel cs
walk-stays rel (normal part ∷ cs) =
    walk-stays (rel ++ part ∷ []) cs
    ∙ ap (λ n. stays n cs) (omega (arith, length-append rel (part ∷ [])))
walk-stays rel (prefix ∷ cs) = refl
walk-stays rel (root_dir ∷ cs) = refl
walk-stays rel (parent_dir ∷ cs) = elim (pop_cases (λ x. Unit) rel) [
  | inl (e, z) ↦ rw (walk, e, z) refl
  | inr (up, e, k) ↦ rw (walk, e, k.shorter) (walk-stays up cs)
]

walk_names :
    (P : String → Type 0) (rel out : List String) (cs : List Component)
    → All P rel
    → All (OfName P) cs
    → walk rel cs ≡ ok out
    → All P out
unfolding walk
walk_names P rel out [] h k e = let same : rel ≡ out = cc in subst (λ x. All P x) same h
walk_names P rel out (cur_dir ∷ cs) h k e = walk_names P rel out cs h k.1 e
walk_names P rel out (normal part ∷ cs) h k e =
    walk_names P (rel ++ part ∷ []) out cs (All-append P rel (part ∷ []) h (k.0, tt)) k.1 e
walk_names P rel out (prefix ∷ cs) h k e = cc
walk_names P rel out (root_dir ∷ cs) h k e = cc
walk_names P rel out (parent_dir ∷ cs) h k e = elim (pop_cases P rel) [
  | inl (n, z) ↦ let dead : is_ok (walk rel (parent_dir ∷ cs)) ≡ false = rw (walk, n) refl in cc
  | inr (up, n, p) ↦
      let rest : walk rel (parent_dir ∷ cs) ≡ walk up cs = rw (walk, n) refl in
      walk_names P up out cs (p.keeps h) k.1 (sym rest ∙ e)
]

starts : (xs ys : List String) → starts_with xs (xs ++ ys) ≡ true
starts [] ys = refl
starts (x ∷ xs) ys = rw (==_refl x) (starts xs ys)

inside-joined : (root : PathBuf) (rel : List String) → inside root rel ≡ ok (joined root rel)
inside-joined root rel = rw (starts root.names rel) refl

resolved :
    (root : PathBuf) (o : Result (List String)) → is_ok (o >>= λ rel. inside root rel) ≡ is_ok o
resolved root (ok rel) = ap is_ok (inside-joined root rel)
resolved root (err e) = refl

-- A path is resolved exactly when it is neither empty nor absolute and has no NUL, and, read from the
-- front, its components never go above the directory that they start from, and name no root.
pub resolve_path-stays :
    (lib : Paths) (w : Workspace) (relative : String)
    → is_ok (resolve_path lib w relative) ≡ (
        not (relative == "" || lib.is_absolute relative)
        && (not (lib.has_nul relative) && stays 0 (lib.components relative)))
unfolding resolve_path
resolve_path-stays lib w relative = ground (
  arith,
  resolved (root_of lib w) (walk [] (lib.components relative)),
  walk-stays [] (lib.components relative),
)

-- A path that is resolved leads to the workspace's root followed by names that its components have:
-- whatever holds of each of these names holds of every name below the root.
pub resolve_path_inside :
    (P : String → Type 0) (lib : Paths) (w : Workspace) (relative : String) (p : PathBuf)
    → All (OfName P) (lib.components relative)
    → resolve_path lib w relative ≡ ok p
    → (rel : List String) × (p ≡ joined (root_of lib w) rel) × All P rel
unfolding resolve_path
resolve_path_inside P lib w relative p h e = go (walk [] (lib.components relative)) refl
  where
    go :
        (o : Result (List String))
        → walk [] (lib.components relative) ≡ o
        → (rel : List String) × (p ≡ joined (root_of lib w) rel) × All P rel
    go (ok rel) q =
        let names : All P rel = walk_names P [] rel (lib.components relative) tt h q in
        let ends : (o : Result (List String)) → Result PathBuf =
          λ o. o >>= λ r. inside (root_of lib w) r in
        let end : ends (walk [] (lib.components relative)) ≡ ok (joined (root_of lib w) rel) =
          ap ends q ∙ inside-joined (root_of lib w) rel in
        (rel, ground (arith, end), names)
    go (err x) q =
        let ends : (o : Result (List String)) → Result PathBuf =
          λ o. o >>= λ r. inside (root_of lib w) r in
        let end : ends (walk [] (lib.components relative)) ≡ err x = ap ends q in
        ground (arith, end)
