-- ===== src/Prelude/Lists.antt =====
-- Lists measured by native numbers, Boolean filters, and predicates over a list.
use Prim.Native.Nat.{ℕ, zero, suc, ◌+◌, ◌-◌, ◌≤◌}
use mathlib.Core.Path.{◌≡◌, refl, sym, ap, ◌∙◌}
use mathlib.Core.Bool.{Bool, true, false, ◌&&◌, ◌||◌}
use mathlib.Core.List.{List, [], ◌∷◌, ◌++◌}
use mathlib.Core.Option.{Option, none, some}
use native.Mathlib.Omega.{arith}
use code_space.Prelude.Tests.{if◌then◌else◌}

module _ {ℓ} {A : Type ℓ} where
  abbrev pub length : List A → ℕ
  length [] = 0
  length (x ∷ xs) = suc (length xs)

  abbrev pub is_empty : List A → Bool
  is_empty [] = true
  is_empty (x ∷ xs) = false

  abbrev pub front : List A → Option A
  front [] = none
  front (x ∷ xs) = some x

  -- The entries that pass the test, in order.
  unfoldable pub select : (A → Bool) → List A → List A
  select p [] = []
  select p (x ∷ xs) = let rest = select p xs in if p x then x ∷ rest else rest

  unfoldable pub any : (A → Bool) → List A → Bool
  any p [] = false
  any p (x ∷ xs) = p x || any p xs

  unfoldable pub all : (A → Bool) → List A → Bool
  all p [] = true
  all p (x ∷ xs) = p x && all p xs

  pub length-append : (xs ys : List A) → length (xs ++ ys) ≡ length xs + length ys
  length-append [] ys = omega arith
  length-append (x ∷ xs) ys = omega (arith, length-append xs ys)

  pub length-select : (p : A → Bool) (xs : List A) → length (select p xs) ≤ length xs
  unfolding select
  length-select p [] = omega arith
  length-select p (x ∷ xs) = ground (arith, length-select p xs)

  -- A filter that keeps the length keeps the list.
  pub select_all :
      (p : A → Bool) (xs : List A) → length (select p xs) ≡ length xs → select p xs ≡ xs
  unfolding select
  select_all p [] h = refl
  select_all p (x ∷ xs) h = ground (arith, select_all p xs, length-select p xs)

  -- A predicate holds of every entry.
  abbrev pub All {κ} : (A → Type κ) → List A → Type κ
  All P [] = Unit
  All P (x ∷ xs) = P x × All P xs

  pub All-append {κ} : (P : A → Type κ) (xs ys : List A) → All P xs → All P ys → All P (xs ++ ys)
  All-append P [] ys hx hy = hy
  All-append P (x ∷ xs) ys hx hy = (hx.0, All-append P xs ys hx.1 hy)

  pub All-select {κ} :
      (P : A → Type κ) (p : A → Bool) (xs : List A) → All P xs → All P (select p xs)
  unfolding select
  All-select P p [] h = tt
  All-select P p (x ∷ xs) h = ground (arith, All-select P p xs h.1)

  -- The entries after the first few.
  unfoldable pub drop : ℕ → List A → List A
  drop zero xs = xs
  drop (suc n) [] = []
  drop (suc n) (x ∷ xs) = drop n xs

  unfoldable pub take : ℕ → List A → List A
  take zero xs = []
  take (suc n) [] = []
  take (suc n) (x ∷ xs) = x ∷ take n xs

  pub take_front : (xs ys : List A) → take (length xs) (xs ++ ys) ≡ xs
  unfolding take
  take_front [] ys = refl
  take_front (x ∷ xs) ys = ap (λ l. x ∷ l) (take_front xs ys)

  pub drop_front : (xs ys : List A) → drop (length xs) (xs ++ ys) ≡ ys
  unfolding drop
  drop_front [] ys = refl
  drop_front (x ∷ xs) ys = drop_front xs ys

  pub length-drop : (n : ℕ) (xs : List A) → length (drop n xs) ≡ length xs - n
  unfolding drop
  length-drop zero xs = omega arith
  length-drop (suc n) [] = omega arith
  length-drop (suc n) (x ∷ xs) = omega (arith, length-drop n xs)

  pub drop-append : (n : ℕ) (xs ys : List A) → n ≤ length xs → drop n (xs ++ ys) ≡ drop n xs ++ ys
  unfolding drop
  drop-append zero xs ys h = refl
  drop-append (suc n) [] ys h = ground arith
  drop-append (suc n) (x ∷ xs) ys h = drop-append n xs ys (omega arith)

  drop_nil : (n : ℕ) → drop n [] ≡ []
  unfolding drop
  drop_nil zero = refl
  drop_nil (suc n) = refl

  pub drop-drop : (m n k : ℕ) (xs : List A) → n + m ≡ k → drop m (drop n xs) ≡ drop k xs
  unfolding drop
  drop-drop m zero k xs h = ap (λ i. drop i xs) (omega (arith, h))
  drop-drop m (suc n) k [] h = drop_nil m ∙ sym (drop_nil k)
  drop-drop m (suc n) zero (x ∷ xs) h = ground arith
  drop-drop m (suc n) (suc k) (x ∷ xs) h = drop-drop m n k xs (omega (arith, h))

  pub drop_all : (n : ℕ) (xs : List A) → length xs ≤ n → drop n xs ≡ []
  unfolding drop
  drop_all zero [] h = refl
  drop_all zero (x ∷ xs) h = ground arith
  drop_all (suc n) [] h = refl
  drop_all (suc n) (x ∷ xs) h = drop_all n xs (omega arith)
