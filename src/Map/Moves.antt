-- ===== src/Map/Moves.antt =====
-- What a change of a table does to the value at a key, in terms of a relation on values.
use mathlib.Core.Option
use code_space.Prelude.{
  ◌≡◌, refl, sym, ap, subst, ◌∙◌, Bool, true, Option, none, some, inl, inr, Bool-cases,
  Option-cases, Keyed, ◌==◌, ==_iff,
}
use code_space.Map.{Map, get, insert, update, map_values, get-insert, get-update, get-map_values}

-- A value is there in the end when it was, and is related to what it was.
pub data Moves {ℓ κ} {V : Type ℓ} (R : V → V → Type κ) : Option V → Option V → Type (ℓ ⊔ κ) where
  absent : Moves R none none
  made : (b : V) → Moves R none (some b)
  kept : (a b : V) → R a b → Moves R (some a) (some b)

module _ {ℓ κ} {V : Type ℓ} {R : V → V → Type κ} where
  pub Moves-kept :
      {o p : Option V} (a : V) → Moves R o p → o ≡ some a → (b : V) × (p ≡ some b) × R a b
  Moves-kept a absent h = cc
  Moves-kept a (made b) h = cc
  Moves-kept a (kept c b r) h = let same : c ≡ a = cc in (b, refl, subst (λ x. R x b) same r)

module _ {ℓ κ} {V : Type ℓ} {R : V → V → Type κ} (reflexive : (v : V) → R v v) where
  pub Moves-refl : (o : Option V) → Moves R o o
  Moves-refl none = absent
  Moves-refl (some a) = kept a a (reflexive a)

  module _ {μ} {K : Type μ} ⦃e : Keyed K⦄ where
    pub update-Moves :
        (k j : K) (p : V → Bool) (f : V → V) (m : Map K V)
        → ((v : V) → get k m ≡ some v → p v ≡ true → R v (f v))
        → Moves R (get j m) (get j (update k p f m))
    update-Moves k j p f m h = rw (get-update k j p f m) (elim (Bool-cases (k == j)) [
      | inr e ↦ rw e (Moves-refl (get j m))
      | inl e ↦ elim (Option-cases (get j m)) [
        | inl n ↦ rw (e, n) absent
        | inr (v, q) ↦
            let found : get k m ≡ some v = ap (λ i. get i m) ((==_iff k j).0 e) ∙ q in
            elim (Bool-cases (p v)) [
              | inl t ↦ rw (e, q, t) (kept v (f v) (h v found t))
              | inr t ↦ rw (e, q, t) (Moves-refl (some v))
            ]
      ]
    ])

    pub map_values-Moves :
        (j : K) (f : V → V) (m : Map K V)
        → ((v : V) → R v (f v))
        → Moves R (get j m) (get j (map_values f m))
    map_values-Moves j f m h = rw (get-map_values f j m) (each (get j m))
      where
        each : (o : Option V) → Moves R o (Option.map f o)
        each none = absent
        each (some v) = kept v (f v) (h v)

    pub insert-Moves :
        (k j : K) (v : V) (m : Map K V) → get k m ≡ none → Moves R (get j m) (get j (insert k v m))
    insert-Moves k j v m free = rw (get-insert k j v m) (elim (Bool-cases (k == j)) [
      | inr t ↦ rw t (Moves-refl (get j m))
      | inl t ↦
          let unknown : get j m ≡ none = ap (λ i. get i m) (sym ((==_iff k j).0 t)) ∙ free in
          rw (t, unknown) (made v)
    ])

module _ {ℓ κ} {V : Type ℓ} {R : V → V → Type κ}
    (transitive : (a b c : V) → R a b → R b c → R a c) where
  pub Moves-trans : {o p q : Option V} → Moves R o p → Moves R p q → Moves R o q
  Moves-trans absent h = h
  Moves-trans (made b) (kept _ c r) = made c
  Moves-trans (kept a b r) (kept _ c t) = kept a c (transitive a b c r t)
