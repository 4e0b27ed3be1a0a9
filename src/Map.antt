-- ===== src/Map.antt =====
-- The standard library's `HashMap` and `BTreeMap` as association lists: a key's value is its first
-- entry. Clients have the laws in terms of `get`.
pub mod Moves
use mathlib.Core.Option
use code_space.Prelude.{
  ◌≡◌, refl, Bool, true, false, Option, none, some, List, [], ◌∷◌, arith, Keyed, ◌==◌, ==_iff,
  if◌then◌else◌, is_some, any, ap, length, length-select, ◌≤◌, select, map, front, Option-cases,
  Bool-cases, inl, inr, sym, ◌∙◌,
}

abbrev pub Map {ℓ κ} : Type ℓ → Type κ → Type (ℓ ⊔ κ)
Map K V = List (K × V)

-- What a test on the value leaves of a lookup.
abbrev pub keep {κ} : {V : Type κ} → (V → Bool) → Option V → Option V
keep p none = none
keep p (some v) = if p v then some v else none

abbrev pub holds {κ} : {V : Type κ} → (V → Bool) → Option V → Bool
holds p none = false
holds p (some v) = p v

module _ {ℓ} {K : Type ℓ} ⦃e : Keyed K⦄ where
  pub front-any : (ks : List K) → (k : K) → front ks ≡ some k → any (λ j. j == k) ks ≡ true
  unfolding any
  front-any [] k h = cc
  front-any (j ∷ ks) k h = let same : (j == k) ≡ true = (==_iff j k).1 cc in ground arith

  pub any-front : (ks : List K) (j : K) → front ks ≡ none → any (λ k. k == j) ks ≡ false
  unfolding any
  any-front [] j h = refl
  any-front (k ∷ ks) j h = cc

  any-select :
      (j : K) (p : K → Bool) (ks : List K)
      → p j ≡ true
      → any (λ k. k == j) ks ≡ true
      → any (λ k. k == j) (select p ks) ≡ true
  unfolding any select
  any-select j p [] hp h = h
  any-select j p (k ∷ ks) hp h =
      let same : k ≡ j → p k ≡ p j = λ q. ap p q in
      ground (arith, any-select j p ks hp, ==_iff k j, same)

  select-any :
      (j : K) (p : K → Bool) (ks : List K) → any (λ k. k == j) (select p ks) ≡ true → p j ≡ true
  unfolding any select
  select-any j p [] h = cc
  select-any j p (k ∷ ks) h =
      let same : k ≡ j → p k ≡ p j = λ q. ap p q in
      ground (arith, select-any j p ks, ==_iff k j, same)

module _ {ℓ κ} {K : Type ℓ} {V : Type κ} ⦃e : Keyed K⦄ where
  unfoldable pub get : K → Map K V → Option V
  get k [] = none
  get k ((j, v) ∷ m) = if j == k then some v else get k m

  unfoldable pub remove : K → Map K V → Map K V
  remove k [] = []
  remove k ((j, v) ∷ m) = let rest = remove k m in if j == k then rest else (j, v) ∷ rest

  unfoldable pub insert : K → V → Map K V → Map K V
  unfolding remove
  insert k v m = (k, v) ∷ remove k m

  -- `retain`: drops the entries whose value fails the test.
  unfoldable pub retain : (V → Bool) → Map K V → Map K V
  unfolding remove
  retain p [] = []
  retain p ((k, v) ∷ m) = let rest = remove k (retain p m) in if p v then (k, v) ∷ rest else rest

  -- The keys whose value passes the test, in the order of iteration.
  unfoldable pub keys_where : (V → Bool) → Map K V → List K
  unfolding get
  keys_where p m = select (λ k. holds p (get k m)) (map (λ (x : K × V). x.0) m)

  pub get-remove : (k j : K) (m : Map K V) → get j (remove k m) ≡ (if k == j then none else get j m)
  unfolding get remove
  get-remove k j [] = ground arith
  get-remove k j ((i, v) ∷ m) = ground (arith, get-remove k j m, ==_iff i k, ==_iff i j, ==_iff k j)

  pub get-insert :
      (k j : K) (v : V) (m : Map K V) → get j (insert k v m) ≡ (if k == j then some v else get j m)
  unfolding get insert
  get-insert k j v m = ground (arith, get-remove k j m)

  pub get-retain : (p : V → Bool) (j : K) (m : Map K V) → get j (retain p m) ≡ keep p (get j m)
  unfolding get retain
  get-retain p j [] = refl
  get-retain p j ((k, v) ∷ m) =
      ground (arith, get-remove k j (retain p m), get-retain p j m, ==_iff k j)

  -- The rows of one key that pass the test are changed, and counted: an UPDATE of one primary key.
  unfoldable pub update : K → (V → Bool) → (V → V) → Map K V → Map K V
  update k p f [] = []
  update k p f ((j, v) ∷ m) =
      let rest = update k p f m in
      if j == k then (j, (if p v then f v else v)) ∷ m else (j, v) ∷ rest

  unfoldable pub updated : K → (V → Bool) → Map K V → Bool
  unfolding get
  updated k p m = holds p (get k m)

  pub get-update :
      (k j : K) (p : V → Bool) (f : V → V) (m : Map K V)
      → get j (update k p f m)
        ≡ (if k == j then Option.map (λ v. if p v then f v else v) (get j m) else get j m)
  unfolding get update
  get-update k j p f [] = ground arith
  get-update k j p f ((i, v) ∷ m) =
      ground (arith, get-update k j p f m, ==_iff i k, ==_iff i j, ==_iff k j)

  -- One row is changed by an UPDATE whose test it passes.
  pub get-update_row :
      (i k : K) (p : V → Bool) (f : V → V) (m : Map K V) (v : V)
      → get i m ≡ some v
      → p v ≡ true
      → get k (update i p f m) ≡ (if i == k then some (f v) else get k m)
  get-update_row i k p f m v found test = elim (Bool-cases (i == k)) [
    | inr e ↦ rw (get-update i k p f m, e) refl
    | inl e ↦
        let same : get k m ≡ some v = ap (λ j. get j m) (sym ((==_iff i k).0 e)) ∙ found in
        rw (get-update i k p f m, e, same, test) refl
  ]

  -- Every value is replaced.
  unfoldable pub map_values : (V → V) → Map K V → Map K V
  map_values f [] = []
  map_values f ((k, v) ∷ m) = (k, f v) ∷ map_values f m

  pub get-map_values :
      (f : V → V) (j : K) (m : Map K V) → get j (map_values f m) ≡ Option.map f (get j m)
  unfolding get map_values
  get-map_values f j [] = refl
  get-map_values f j ((k, v) ∷ m) = ground (arith, get-map_values f j m)

  length-keys : (m : Map K V) → length (map (λ (x : K × V). x.0) m) ≡ length m
  length-keys [] = refl
  length-keys (x ∷ m) = omega (arith, length-keys m)

  -- A key with a value stands among the keys.
  any-keys :
      (j : K) (m : Map K V)
      → is_some (get j m) ≡ true
      → any (λ k. k == j) (map (λ (x : K × V). x.0) m) ≡ true
  unfolding get any
  any-keys j [] h = h
  any-keys j ((k, v) ∷ m) h = ground (arith, any-keys j m)

  -- `keys_where` lists every key whose value passes the test.
  pub any-keys_where :
      (p : V → Bool) (j : K) (m : Map K V)
      → holds p (get j m) ≡ true
      → any (λ k. k == j) (keys_where p m) ≡ true
  unfolding keys_where
  any-keys_where p j m h =
      any-select j (λ k. holds p (get k m)) (map (λ (x : K × V). x.0) m) h
        (any-keys j m (ground arith))

  -- And no others.
  pub holds-any-keys_where :
      (p : V → Bool) (j : K) (m : Map K V)
      → any (λ k. k == j) (keys_where p m) ≡ true
      → holds p (get j m) ≡ true
  unfolding keys_where
  holds-any-keys_where p j m h =
      select-any j (λ k. holds p (get k m)) (map (λ (x : K × V). x.0) m) h

  -- There are no more such keys than entries.
  pub length-keys_where : (p : V → Bool) (m : Map K V) → length (keys_where p m) ≤ length m
  unfolding keys_where
  length-keys_where p m =
      omega
        (arith, length-select (λ k. holds p (get k m)) (map (λ (x : K × V). x.0) m), length-keys m)

  -- The first value that passes the test: a query with `LIMIT 1`.
  abbrev pub value_at : Map K V → Option K → Option V
  value_at m none = none
  value_at m (some k) = get k m

  unfoldable pub find : (V → Bool) → Map K V → Option V
  find p m = value_at m (front (keys_where p m))

  -- What is found is a key's value, and passes.
  pub find-some :
      (p : V → Bool) (v : V) (m : Map K V)
      → find p m ≡ some v
      → (k : K) × (get k m ≡ some v) × (p v ≡ true)
  unfolding find
  find-some p v m h = elim (Option-cases (front (keys_where p m))) [
    | inl e ↦ let nothing : value_at m (front (keys_where p m)) ≡ none = rw e refl in cc
    | inr (k, e) ↦
        let found : value_at m (front (keys_where p m)) ≡ get k m = rw e refl in
        let value : get k m ≡ some v = cc in
        let passes : holds p (get k m) ≡ true =
          holds-any-keys_where p k m (front-any (keys_where p m) k e) in
        (k, value, sym (ap (λ o. holds p o) value) ∙ passes)
  ]

  -- No value passes a test that none is found for.
  pub find-none :
      (p : V → Bool) (j : K) (v : V) (m : Map K V)
      → find p m ≡ none
      → get j m ≡ some v
      → p v ≡ false
  unfolding find
  find-none p j v m h g = elim (Bool-cases (p v)) [
    | inr f ↦ f
    | inl t ↦
        let listed : any (λ k. k == j) (keys_where p m) ≡ true =
          any-keys_where p j m (ap (λ o. holds p o) g ∙ t) in
        elim (Option-cases (front (keys_where p m))) [
          | inl e ↦
              let unlisted : any (λ k. k == j) (keys_where p m) ≡ false =
                any-front (keys_where p m) j e in
              cc
          | inr (k, e) ↦
              let found : value_at m (front (keys_where p m)) ≡ get k m = rw e refl in
              let passes : holds p (get k m) ≡ true =
                holds-any-keys_where p k m (front-any (keys_where p m) k e) in
              let missing : get k m ≡ none = cc in
              let fails : holds p (get k m) ≡ false = rw missing refl in cc
        ]
  ]

pub ruleset map_laws = (get-remove, get-insert, get-retain, get-map_values, get-update)
