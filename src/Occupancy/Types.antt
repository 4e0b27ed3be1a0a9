-- ===== src/Occupancy/Types.antt =====
-- The data of crates/store/src/resource.rs, and the one-shot channels that it uses.
use code_space.Prelude.{
  ℕ, String, ◌≡◌, ◌↔◌, Bool, true, false, ◌&&◌, Option, List, arith, Keyed, ◌==◌, ==_iff, ◌≢◌, some,
  string_keyed,
}
use code_space.Domain.Error.{ErrorBody, Result}
use code_space.Map.{Map}

pub data Resource : Type 0 where
  environment workspace process operation watch : String → Resource
  path : String → String → Resource

pub data LockMode : Type 0 where
  exclusive shared_read : LockMode

pub data ExclusiveHolder : Type 0 where
  request : ExclusiveHolder
  spawning process : String → ExclusiveHolder

-- `Tx` is the sending end of a waiter's channel.
pub record Waiter (Tx : Type 0) : Type 0 where
  pub id : ℕ
  pub mode : LockMode
  pub owner : ExclusiveHolder
  pub tx : Tx

-- `channels` is the state of all channels, which lives outside the serializer in the source.
pub record ResourceSerializer (Tx World : Type 0) : Type 0 where
  pub exclusive : Map Resource ExclusiveHolder
  pub shared : Map Resource ℕ
  pub waiters : Map Resource (List (Waiter Tx))
  pub next_waiter : ℕ
  pub channels : World

-- A waiter's receiving end is reached through the same handle.
pub data AcquireOutcome (Tx : Type 0) : Type 0 where
  granted : AcquireOutcome Tx
  busy : ErrorBody → AcquireOutcome Tx
  waiting : ℕ → Tx → AcquireOutcome Tx

-- `tokio::sync::oneshot`, as documented: `send` succeeds unless the receiver is gone, and what
-- was sent is what the receiver gets; a channel is not changed by the use of another.
pub record Oneshot : Type 1 where
  pub Tx : Type 0
  pub World : Type 0
  pub channel : World → Tx × World
  pub send : Tx → Result (Unit {0}) → World → Bool × World
  pub try_recv : Tx → World → Option (Result (Unit {0}))
  pub recv-send :
      (t : Tx) (v : Result (Unit {0})) (w : World)
      → (send t v w).0 ≡ true
      → try_recv t (send t v w).1 ≡ some v
  pub recv-send_ne :
      (t u : Tx) (v : Result (Unit {0})) (w : World)
      → t ≢ u
      → try_recv u (send t v w).1 ≡ try_recv u w

abbrev pub resource_beq : Resource → Resource → Bool
resource_beq (environment a) (environment b) = a == b
resource_beq (workspace a) (workspace b) = a == b
resource_beq (path a p) (path b q) = a == b && p == q
resource_beq (Resource.process a) (Resource.process b) = a == b
resource_beq (operation a) (operation b) = a == b
resource_beq (watch a) (watch b) = a == b
resource_beq _ _ = false

pub resource_beq_iff : (a b : Resource) → (resource_beq a b ≡ true) ↔ (a ≡ b)
resource_beq_iff (environment a) (environment b) = ground (arith, ==_iff a b)
resource_beq_iff (workspace a) (workspace b) = ground (arith, ==_iff a b)
resource_beq_iff (path a p) (path b q) = ground (arith, ==_iff a b, ==_iff p q)
resource_beq_iff (Resource.process a) (Resource.process b) = ground (arith, ==_iff a b)
resource_beq_iff (operation a) (operation b) = ground (arith, ==_iff a b)
resource_beq_iff (watch a) (watch b) = ground (arith, ==_iff a b)
resource_beq_iff _ _ = ground arith

instance abbrev pub resource_keyed : Keyed Resource
resource_keyed = record { eqb = resource_beq; eqb_iff = resource_beq_iff }

abbrev pub is_workspace : Resource → Bool
is_workspace (workspace id) = true
is_workspace _ = false

abbrev pub is_exclusive : LockMode → Bool
is_exclusive LockMode.exclusive = true
is_exclusive shared_read = false

-- A confirmed process holds the resource.
abbrev pub is_process : Option ExclusiveHolder → Bool
is_process (some (ExclusiveHolder.process id)) = true
is_process _ = false

abbrev pub is_request : Option ExclusiveHolder → Bool
is_request (some request) = true
is_request _ = false
