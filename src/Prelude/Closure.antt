-- ===== src/Prelude/Closure.antt =====
-- The reflexive transitive closure of a step relation.
pub data Star {ℓ κ} {A : Type ℓ} (E : A → A → Type κ) : A → A → Type (ℓ ⊔ κ) where
  here : (a : A) → Star E a a
  then_step : (a b c : A) → Star E a b → E b c → Star E a c

module _ {ℓ κ} {A : Type ℓ} {E : A → A → Type κ} where
  pub one : (a b : A) → E a b → Star E a b
  one a b e = then_step a a b (here a) e

  pub Star-trans : {a b c : A} → Star E a b → Star E b c → Star E a c
  Star-trans p (here b) = p
  Star-trans p (then_step b d c q e) = then_step _ d c (Star-trans p q) e

  -- What a step keeps, the closure keeps.
  pub Star-keeps {μ} :
      (P : A → Type μ) → ((a b : A) → E a b → P a → P b) → {a b : A} → Star E a b → P a → P b
  Star-keeps P k (here a) h = h
  Star-keeps P k (then_step a b c q e) h = k b c e (Star-keeps P k q h)
