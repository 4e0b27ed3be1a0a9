-- ===== src/Prelude/Sorting.antt =====
-- `ORDER BY` as a stable insertion sort under a Boolean order.
use Prim.Native.Nat.{suc}
use mathlib.Core.Path.{◌≡◌, refl, sym, ap, subst, ◌∙◌}
use mathlib.Core.Bool.{Bool, true, false, ◌||◌}
use mathlib.Core.Logic.{inl, inr}
use mathlib.Core.List.{List, [], ◌∷◌}
use mathlib.Core.Option.{some}
use native.Mathlib.Omega.{arith}
use code_space.Prelude.Tests.{if◌then◌else◌, Bool-cases}
use code_space.Prelude.Keys.{Keyed, ◌==◌, ==_iff}
use code_space.Prelude.Lists.{front, any, All, length}

module _ {ℓ} {A : Type ℓ} (le : A → A → Bool) where
  unfoldable pub insert_by : A → List A → List A
  insert_by x [] = x ∷ []
  insert_by x (y ∷ ys) = let rest = insert_by x ys in if le x y then x ∷ y ∷ ys else y ∷ rest

  unfoldable pub order_by : List A → List A
  unfolding insert_by
  order_by [] = []
  order_by (x ∷ xs) = insert_by x (order_by xs)

  any-insert_by : (p : A → Bool) (x : A) (xs : List A) → any p (insert_by x xs) ≡ (p x || any p xs)
  unfolding insert_by any
  any-insert_by p x [] = refl
  any-insert_by p x (y ∷ ys) = ground (arith, any-insert_by p x ys)

  -- The order loses and adds nothing.
  pub any-order_by : (p : A → Bool) (xs : List A) → any p (order_by xs) ≡ any p xs
  unfolding order_by any
  any-order_by p [] = refl
  any-order_by p (x ∷ xs) = ground (arith, any-insert_by p x (order_by xs), any-order_by p xs)

  length-insert_by : (x : A) (xs : List A) → length (insert_by x xs) ≡ suc (length xs)
  unfolding insert_by
  length-insert_by x [] = refl
  length-insert_by x (y ∷ ys) = ground (arith, length-insert_by x ys)

  pub length-order_by : (xs : List A) → length (order_by xs) ≡ length xs
  unfolding order_by
  length-order_by [] = refl
  length-order_by (x ∷ xs) = length-insert_by x (order_by xs) ∙ ap (λ n. suc n) (length-order_by xs)

  -- Each entry comes before all that follow.
  abbrev pub IsOrdered : List A → Type ℓ
  IsOrdered [] = Unit
  IsOrdered (x ∷ xs) = All (λ y. le x y ≡ true) xs × IsOrdered xs

  module _ (total : (a b : A) → le a b ≡ false → le b a ≡ true)
      (trans : (a b c : A) → le a b ≡ true → le b c ≡ true → le a c ≡ true) where
    All-trans :
        (a b : A) (xs : List A)
        → le a b ≡ true
        → All (λ y. le b y ≡ true) xs
        → All (λ y. le a y ≡ true) xs
    All-trans a b [] h hs = tt
    All-trans a b (x ∷ xs) h hs = (trans a b x h hs.0, All-trans a b xs h hs.1)

    All-insert_by :
        (a x : A) (xs : List A)
        → le a x ≡ true
        → All (λ y. le a y ≡ true) xs
        → All (λ y. le a y ≡ true) (insert_by x xs)
    unfolding insert_by
    All-insert_by a x [] h hs = (h, tt)
    All-insert_by a x (y ∷ ys) h hs = elim (Bool-cases (le x y)) [
      | inl e ↦ rw e (h, hs)
      | inr e ↦ rw e (hs.0, All-insert_by a x ys h hs.1)
    ]

    insert_by-IsOrdered : (x : A) (xs : List A) → IsOrdered xs → IsOrdered (insert_by x xs)
    unfolding insert_by
    insert_by-IsOrdered x [] h = (tt, tt)
    insert_by-IsOrdered x (y ∷ ys) h = elim (Bool-cases (le x y)) [
      | inl e ↦ rw e ((e, All-trans x y ys e h.0), h)
      | inr e ↦ rw e (All-insert_by y x ys (total x y e) h.0, insert_by-IsOrdered x ys h.1)
    ]

    pub order_by-IsOrdered : (xs : List A) → IsOrdered (order_by xs)
    unfolding order_by
    order_by-IsOrdered [] = tt
    order_by-IsOrdered (x ∷ xs) = insert_by-IsOrdered x (order_by xs) (order_by-IsOrdered xs)

    -- What comes first comes before every entry.
    le_any :
        ⦃e : Keyed A⦄ (a b : A) (xs : List A)
        → All (λ y. le a y ≡ true) xs
        → any (λ x. x == b) xs ≡ true
        → le a b ≡ true
    unfolding any
    le_any a b [] h m = cc
    le_any a b (x ∷ xs) h m = elim (Bool-cases (x == b)) [
      | inl e ↦ subst (λ c. le a c ≡ true) ((==_iff x b).0 e) h.0
      | inr e ↦ le_any a b xs h.1 (ground arith)
    ]

    le_front :
        ⦃e : Keyed A⦄ (a b : A) (xs : List A)
        → IsOrdered xs
        → front xs ≡ some a
        → any (λ x. x == b) xs ≡ true
        → le a b ≡ true
    unfolding any
    le_front a b [] h f m = cc
    le_front a b (x ∷ xs) h f m =
        let same : x ≡ a = cc in
        let itself : le a a ≡ true = elim (Bool-cases (le a a)) [
          | inl t ↦ t
          | inr t ↦ total a a t
        ] in
        elim (Bool-cases (x == b)) [
          | inl e ↦ subst (λ c. le a c ≡ true) (sym same ∙ (==_iff x b).0 e) itself
          | inr e ↦ le_any a b xs (subst (λ c. All (λ y. le c y ≡ true) xs) same h.0) (ground arith)
        ]

    pub front-order_by :
        ⦃e : Keyed A⦄ (a b : A) (xs : List A)
        → front (order_by xs) ≡ some a
        → any (λ x. x == b) xs ≡ true
        → le a b ≡ true
    front-order_by a b xs f m =
        le_front a b (order_by xs) (order_by-IsOrdered xs) f (any-order_by (λ x. x == b) xs ∙ m)
