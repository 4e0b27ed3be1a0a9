-- ===== src/Occupancy/Serializer.antt =====
-- The private methods of `ResourceSerializer` of crates/store/src/resource.rs, method by method. A method that changes
-- the serializer returns the new one. The loops over a queue recur on the queue.
use code_space.Prelude.{
  ℕ, ◌+◌, ◌-◌, ◌%◌, ◌^◌, Bool, false, not, ◌&&◌, Option, none, some, List, [], ◌∷◌, ◌++◌,
  string_keyed, ltb, nat_beq, if◌then◌else◌, is_none, length, is_empty, any,
}
use code_space.Domain.Error.{ErrorBody, new, workspace_busy, resource_queue_full, ok, err}
use code_space.Map.{Map, get, insert, remove}
use code_space.Occupancy.Types.{
  Resource, environment, workspace, operation, watch, path, LockMode, shared_read, ExclusiveHolder,
  Waiter, ResourceSerializer, Oneshot, resource_keyed, is_workspace, is_exclusive, is_process,
}

abbrev pub max_waiters_per_resource : ℕ
max_waiters_per_resource = 64

unfoldable pub busy_body : Resource → ErrorBody
busy_body (workspace _) = new workspace_busy "workspace write lock is held"
busy_body (environment _) = new workspace_busy "environment lock is held"
busy_body (path _ _) = new workspace_busy "path lock is held"
busy_body (Resource.process _) = new workspace_busy "process lock is held"
busy_body (operation _) = new workspace_busy "operation lock is held"
busy_body (watch _) = new workspace_busy "watch lock is held"

abbrev pub shell_busy : ErrorBody
shell_busy = new workspace_busy "workspace has a busy shell"

abbrev pub write_lock_held : ErrorBody
write_lock_held = new workspace_busy "workspace write lock is held"

abbrev pub queue_full : ErrorBody
queue_full = new resource_queue_full "resource waiter queue exceeds 64"

unfoldable pub process_held_busy : Resource → ErrorBody
unfolding busy_body
process_held_busy (workspace _) = shell_busy
process_held_busy r = busy_body r

-- One shared holder fewer; the entry goes with the last.
drop_shared : Resource → Option ℕ → Map Resource ℕ → Map Resource ℕ
drop_shared r none m = m
drop_shared r (some n) m = if nat_beq (n - 1) 0 then remove r m else insert r (n - 1) m

-- The questions that read the serializer.
module _ {Tx World : Type 0} where
  unfoldable pub waiter_count_unlocked : Resource → ResourceSerializer Tx World → ℕ
  waiter_count_unlocked r s = elim (get r s.waiters) [ none ↦ 0 | some q ↦ length q ]

  unfoldable pub has_waiters : Resource → ResourceSerializer Tx World → Bool
  unfolding waiter_count_unlocked
  has_waiters r s = ltb 0 (waiter_count_unlocked r s)

  unfoldable pub has_exclusive_waiter : Resource → ResourceSerializer Tx World → Bool
  has_exclusive_waiter r s = elim (get r s.waiters) [
    | none ↦ false
    | some q ↦ any (λ (w : Waiter Tx). is_exclusive w.mode) q
  ]

  unfoldable pub shared_count : Resource → ResourceSerializer Tx World → ℕ
  shared_count r s = elim (get r s.shared) [ none ↦ 0 | some n ↦ n ]

  unfoldable pub process_held : Resource → ResourceSerializer Tx World → Bool
  process_held r s = is_workspace r && is_process (get r s.exclusive)

  unfoldable pub can_grant : Resource → LockMode → ResourceSerializer Tx World → Bool
  unfolding shared_count
  can_grant r shared_read s = is_none (get r s.exclusive)
  can_grant r LockMode.exclusive s = is_none (get r s.exclusive) && nat_beq (shared_count r s) 0

  unfoldable pub can_try_grant : Resource → LockMode → ResourceSerializer Tx World → Bool
  unfolding can_grant has_exclusive_waiter has_waiters
  can_try_grant r shared_read s = can_grant r shared_read s && not (has_exclusive_waiter r s)
  can_try_grant r LockMode.exclusive s = can_grant r LockMode.exclusive s && not (has_waiters r s)

  -- `u32` counts the shared holders.
  unfoldable pub grant :
      Resource
      → LockMode
      → ExclusiveHolder
      → ResourceSerializer Tx World
      → ResourceSerializer Tx World
  unfolding shared_count
  grant r shared_read owner s = record s {
    shared = insert r ((shared_count r s + 1) % 2 ^ 32) s.shared;
  }
  grant r LockMode.exclusive owner s = record s { exclusive = insert r owner s.exclusive }

  unfoldable pub unlock_silent :
      Resource → LockMode → ResourceSerializer Tx World → ResourceSerializer Tx World
  unfolding drop_shared
  unlock_silent r shared_read s = record s { shared = drop_shared r (get r s.shared) s.shared }
  unlock_silent r LockMode.exclusive s = record s { exclusive = remove r s.exclusive }

  -- The queue after waiters left it: an empty one is dropped from the map.
  unfoldable pub set_queue :
      Resource → List (Waiter Tx) → ResourceSerializer Tx World → ResourceSerializer Tx World
  set_queue r q s = record s {
    waiters = if is_empty q then remove r s.waiters else insert r q s.waiters;
  }

  unfoldable pub queue_of : Resource → ResourceSerializer Tx World → List (Waiter Tx)
  queue_of r s = elim (get r s.waiters) [ none ↦ [] | some q ↦ q ]

-- The methods that create channels or send on them.
module _ (o : Oneshot) where
  open o use {Tx, World, channel, send}

  -- `waiter.tx.send(Ok(()))`, once the resource was granted to the waiter.
  abbrev pub tell : Waiter Tx → ResourceSerializer Tx World → Bool × ResourceSerializer Tx World
  tell w s =
      ((send w.tx (ok tt) s.channels).0, record s { channels = (send w.tx (ok tt) s.channels).1 })

  -- The popped waiter is granted the resource and told; if it is gone, the grant is taken back.
  unfoldable pub deliver :
      Resource → Waiter Tx → ResourceSerializer Tx World → Bool × ResourceSerializer Tx World
  deliver r w s =
      let told = tell w (grant r w.mode w.owner s) in
      (told.0, if told.0 then told.1 else unlock_silent r w.mode told.1)

  -- The loop of `wake`, over the queue of the resource.
  unfoldable pub wake_from :
      Resource → List (Waiter Tx) → ResourceSerializer Tx World → ResourceSerializer Tx World
  wake_from r [] s = set_queue r [] s
  wake_from r (w ∷ q) s =
      let d = deliver r w (set_queue r q s) in
      let rest = wake_from r q d.1 in
      if can_grant r w.mode s then (if d.0 && is_exclusive w.mode then d.1 else rest) else s

  unfoldable pub wake : Resource → ResourceSerializer Tx World → ResourceSerializer Tx World
  unfolding queue_of
  wake r s = wake_from r (queue_of r s) s

  unfoldable pub wake_all :
      List Resource → ResourceSerializer Tx World → ResourceSerializer Tx World
  wake_all [] s = s
  wake_all (r ∷ rs) s = wake_all rs (wake r s)

  -- The waiter that `enqueue` makes.
  abbrev pub new_waiter : LockMode → ExclusiveHolder → ResourceSerializer Tx World → Waiter Tx
  new_waiter mode owner s = record {
    id = s.next_waiter;
    mode = mode;
    owner = owner;
    tx = (channel s.channels).0;
  }

  -- `u64` ids wrap.
  unfoldable pub enqueue :
      Resource
      → LockMode
      → ExclusiveHolder
      → ResourceSerializer Tx World
      → (ℕ × Tx) × ResourceSerializer Tx World
  unfolding queue_of
  enqueue r mode owner s = (
    (s.next_waiter, (channel s.channels).0),
    record s {
      waiters = insert r (queue_of r s ++ new_waiter mode owner s ∷ []) s.waiters;
      next_waiter = (s.next_waiter + 1) % 2 ^ 64;
      channels = (channel s.channels).1;
    },
  )

  send_all : List (Waiter Tx) → ErrorBody → World → World
  send_all [] e c = c
  send_all (w ∷ q) e c = send_all q e (send w.tx (err e) c).1

  unfoldable pub fail_waiters :
      Resource → ErrorBody → ResourceSerializer Tx World → ResourceSerializer Tx World
  unfolding send_all queue_of
  fail_waiters r e s = record s {
    waiters = remove r s.waiters;
    channels = send_all (queue_of r s) e s.channels;
  }
