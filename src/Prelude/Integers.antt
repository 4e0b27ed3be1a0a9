-- ===== src/Prelude/Integers.antt =====
-- Machine integers that can be negative, with a Boolean equality.
use Prim.Native.Nat.{ℕ}
use mathlib.Core.Path.{◌≡◌}
use mathlib.Core.Logic.{◌↔◌}
use mathlib.Core.Bool.{Bool, false, true}
use native.Mathlib.Omega.{arith}
use code_space.Prelude.Tests.{nat_beq, nat_beq_iff}
use code_space.Prelude.Keys.{Keyed}

pub data ℤ : Type 0 where
  pos negsuc : ℕ → ℤ

abbrev pub int_beq : ℤ → ℤ → Bool
int_beq (pos a) (pos b) = nat_beq a b
int_beq (negsuc a) (negsuc b) = nat_beq a b
int_beq _ _ = false

pub int_beq_iff : (a b : ℤ) → (int_beq a b ≡ true) ↔ (a ≡ b)
int_beq_iff (pos a) (pos b) = ground (arith, nat_beq_iff a b)
int_beq_iff (negsuc a) (negsuc b) = ground (arith, nat_beq_iff a b)
int_beq_iff (pos a) (negsuc b) = ground arith
int_beq_iff (negsuc a) (pos b) = ground arith

instance abbrev pub int_keyed : Keyed ℤ
int_keyed = record { eqb = int_beq; eqb_iff = int_beq_iff }
