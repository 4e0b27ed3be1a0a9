-- ===== src/Occupancy/Slot.antt =====
-- One resource's part of the serializer: who holds it and who waits. Each primitive step changes
-- the slot of its own resource only.
use code_space.Prelude.{
  ℕ, ◌+◌, ◌-◌, ◌%◌, ◌^◌, ◌≡◌, refl, Bool, ◌&&◌, Option, none, some, List, [], ◌∷◌, ◌++◌, arith,
  ◌==◌, ==_iff, nat_beq, if◌then◌else◌, is_none, Option-cases, inl, inr,
}
use code_space.Domain.Error.{ErrorBody}
use code_space.Map.{get, get-remove, get-insert}
use code_space.Occupancy.Types.{
  Resource, LockMode, shared_read, ExclusiveHolder, Waiter, ResourceSerializer, Oneshot,
  resource_keyed,
}
use code_space.Occupancy.Serializer.{
  shared_count, can_grant, grant, unlock_silent, set_queue, queue_of, new_waiter, enqueue,
  fail_waiters,
}

pub record Slot (Tx : Type 0) : Type 0 where
  pub holder : Option ExclusiveHolder
  pub shared : ℕ
  pub queue : List (Waiter Tx)

abbrev pub open_for : LockMode → Option ExclusiveHolder → ℕ → Bool
open_for shared_read h n = is_none h
open_for LockMode.exclusive h n = is_none h && nat_beq n 0

module _ {Tx : Type 0} where
  abbrev pub grant_slot : LockMode → ExclusiveHolder → Slot Tx → Slot Tx
  grant_slot shared_read owner v = record v { shared = (v.shared + 1) % 2 ^ 32 }
  grant_slot LockMode.exclusive owner v = record v { holder = some owner }

  abbrev pub unlock_slot : LockMode → Slot Tx → Slot Tx
  unlock_slot shared_read v = record v { shared = v.shared - 1 }
  unlock_slot LockMode.exclusive v = record v { holder = none }

module _ {Tx World : Type 0} where
  abbrev pub slot : Resource → ResourceSerializer Tx World → Slot Tx
  slot r s = record { holder = get r s.exclusive; shared = shared_count r s; queue = queue_of r s }

  pub can_grant-slot :
      (r : Resource) (mode : LockMode) (s : ResourceSerializer Tx World)
      → can_grant r mode s ≡ open_for mode (get r s.exclusive) (shared_count r s)
  unfolding can_grant
  can_grant-slot r shared_read s = refl
  can_grant-slot r LockMode.exclusive s = refl

  pub slot-grant :
      (r j : Resource) (mode : LockMode) (h : ExclusiveHolder) (s : ResourceSerializer Tx World)
      → slot j (grant r mode h s) ≡ (if r == j then grant_slot mode h (slot j s) else slot j s)
  unfolding grant shared_count queue_of
  slot-grant r j shared_read h s =
      ground (arith, get-insert r j ((shared_count r s + 1) % 2 ^ 32) s.shared, ==_iff r j)
  slot-grant r j LockMode.exclusive h s = ground (arith, get-insert r j h s.exclusive, ==_iff r j)

  pub slot-unlock_silent :
      (r j : Resource) (mode : LockMode) (s : ResourceSerializer Tx World)
      → slot j (unlock_silent r mode s) ≡ (if r == j then unlock_slot mode (slot j s) else slot j s)
  unfolding unlock_silent shared_count queue_of
  slot-unlock_silent r j shared_read s = elim (Option-cases (get r s.shared)) [
    | inl e ↦ ground (arith, ==_iff r j)
    | inr (n, e) ↦
        ground (arith, get-remove r j s.shared, get-insert r j (n - 1) s.shared, ==_iff r j)
  ]
  slot-unlock_silent r j LockMode.exclusive s = ground (arith, get-remove r j s.exclusive)

  pub slot-set_queue :
      (r j : Resource) (q : List (Waiter Tx)) (s : ResourceSerializer Tx World)
      → slot j (set_queue r q s) ≡ (if r == j then record (slot j s) { queue = q } else slot j s)
  unfolding set_queue shared_count queue_of
  slot-set_queue r j [] s = ground (arith, get-remove r j s.waiters)
  slot-set_queue r j (w ∷ q) s = ground (arith, get-insert r j (w ∷ q) s.waiters)

module _ (o : Oneshot) where
  open o use {Tx, World}

  -- `enqueue` appends the new waiter.
  pub slot-enqueue :
      (r j : Resource) (mode : LockMode) (h : ExclusiveHolder) (s : ResourceSerializer Tx World)
      → slot j (enqueue o r mode h s).1 ≡ (
          if r == j
          then record (slot j s) { queue = queue_of j s ++ new_waiter o mode h s ∷ [] }
          else slot j s)
  unfolding enqueue shared_count queue_of
  slot-enqueue r j mode h s =
      ground
        (arith, ==_iff r j, get-insert r j (queue_of r s ++ new_waiter o mode h s ∷ []) s.waiters)

  pub slot-fail_waiters :
      (r j : Resource) (e : ErrorBody) (s : ResourceSerializer Tx World)
      → slot j (fail_waiters o r e s)
        ≡ (if r == j then record (slot j s) { queue = [] } else slot j s)
  unfolding fail_waiters shared_count queue_of
  slot-fail_waiters r j e s = ground (arith, get-remove r j s.waiters)
