-- ===== src/Prelude/Keys.antt =====
-- Equality as an interface: a Boolean test with the law that makes it one. Instances for numbers
-- and texts, and for pairs and options of such.
use Prim.Native.Nat.{ℕ}
use Prim.Native.String.{String}
use mathlib.Core.Path.{◌≡◌, refl}
use mathlib.Core.Logic.{◌↔◌}
use mathlib.Core.Bool.{Bool, true, false}
use mathlib.Core.Option.{Option, none, some}
use native.Mathlib.Omega.{arith}
use text.Mathlib.Text.{◌==◌ as str_eq}
use text.Mathlib.TextEquality.{eq_iff}
use code_space.Prelude.Tests.{nat_beq, nat_beq_iff}

pub record Keyed {ℓ} (A : Type ℓ) : Type ℓ where
  pub eqb : A → A → Bool
  pub eqb_iff : (a b : A) → (eqb a b ≡ true) ↔ (a ≡ b)

infix 50 ◌==◌
abbrev pub ◌==◌ {ℓ} : {A : Type ℓ} ⦃e : Keyed A⦄ → A → A → Bool
◌==◌ ⦃e⦄ = e.eqb

pub ==_iff {ℓ} : {A : Type ℓ} ⦃e : Keyed A⦄ (a b : A) → ((a == b) ≡ true) ↔ (a ≡ b)
==_iff ⦃e⦄ = e.eqb_iff

pub ==_refl {ℓ} : {A : Type ℓ} ⦃e : Keyed A⦄ (a : A) → (a == a) ≡ true
==_refl ⦃e⦄ a = (e.eqb_iff a a).1 refl

module _ {ℓ} {A : Type ℓ} ⦃e : Keyed A⦄ where
  abbrev pub option_beq : Option A → Option A → Bool
  option_beq none none = true
  option_beq (some a) (some b) = a == b
  option_beq _ _ = false

  pub option_beq_iff : (a b : Option A) → (option_beq a b ≡ true) ↔ (a ≡ b)
  option_beq_iff none none = ground arith
  option_beq_iff (some a) (some b) = ground (arith, e.eqb_iff a b)
  option_beq_iff none (some b) = ground arith
  option_beq_iff (some a) none = ground arith

  instance abbrev pub option_keyed : Keyed (Option A)
  option_keyed = record { eqb = option_beq; eqb_iff = option_beq_iff }

instance abbrev pub nat_keyed : Keyed ℕ
nat_keyed = record { eqb = nat_beq; eqb_iff = nat_beq_iff }

instance abbrev pub string_keyed : Keyed String
string_keyed = record { eqb = str_eq; eqb_iff = eq_iff }
