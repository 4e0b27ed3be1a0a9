-- ===== src/Occupancy/Methods.antt =====
-- The methods of `ResourceSerializer` of crates/store/src/resource.rs that the store calls.
use code_space.Prelude.{
  ℕ, String, Bool, true, false, not, ◌&&◌, ◌||◌, Option, none, some, List, [], ◌∷◌, ◌==◌,
  string_keyed, nat_beq, ltb, leb, if◌then◌else◌, is_some, length, select,
}
use code_space.Domain.Error.{ErrorBody, Result, ok, err}
use code_space.Map.{get, remove, retain, keys_where, map_values}
use code_space.Occupancy.Types.{
  Resource, workspace, LockMode, ExclusiveHolder, request, spawning, Waiter, ResourceSerializer,
  AcquireOutcome, granted, busy, waiting, Oneshot, resource_keyed, is_exclusive, is_process,
  is_request,
}
use code_space.Occupancy.Serializer.{
  max_waiters_per_resource, busy_body, shell_busy, write_lock_held, queue_full, process_held_busy,
  waiter_count_unlocked, has_waiters, has_exclusive_waiter, shared_count, process_held, can_grant,
  can_try_grant, grant, unlock_silent, set_queue, wake, wake_all, enqueue, fail_waiters,
}

abbrev pub is_spawning_of : String → ExclusiveHolder → Bool
is_spawning_of id (spawning p) = p == id
is_spawning_of id _ = false

abbrev pub belongs_to : String → ExclusiveHolder → Bool
belongs_to id (spawning p) = p == id
belongs_to id (ExclusiveHolder.process p) = p == id
belongs_to id request = false

abbrev pub is_of_process : ExclusiveHolder → Bool
is_of_process request = false
is_of_process _ = true

abbrev pub confirmed : String → ExclusiveHolder → ExclusiveHolder
confirmed id h = if is_spawning_of id h then ExclusiveHolder.process id else h

module _ {Tx World : Type 0} where
  -- `release_matching`: the released resources, and the serializer without their holders.
  unfoldable pub release_matching :
      (ExclusiveHolder → Bool)
      → ResourceSerializer Tx World
      → List Resource × ResourceSerializer Tx World
  release_matching p s =
      (keys_where p s.exclusive, record s { exclusive = retain (λ h. not (p h)) s.exclusive })

  -- The second test of `acquire`: a shared request yields to an exclusive one that waits, an
  -- exclusive one to anybody that waits.
  abbrev pub grants_at_once : Resource → LockMode → ResourceSerializer Tx World → Bool
  grants_at_once r mode s =
      let fairness_blocks = not (is_exclusive mode) && has_exclusive_waiter r s in
      can_grant r mode s
      && not fairness_blocks
      && (not (is_exclusive mode) || not (has_waiters r s))

  -- An exclusive holder, a shared one, or someone who waits.
  unfoldable pub is_taken : Resource → ResourceSerializer Tx World → Bool
  is_taken r s = is_some (get r s.exclusive) || ltb 0 (shared_count r s) || has_waiters r s

module _ (o : Oneshot) where
  open o use {Tx, World}

  unfoldable pub acquire :
      Resource
      → LockMode
      → ExclusiveHolder
      → ResourceSerializer Tx World
      → AcquireOutcome Tx × ResourceSerializer Tx World
  acquire r mode owner s =
      let e = enqueue o r mode owner s in
      if process_held r s
      then (busy (process_held_busy r), s)
      else if grants_at_once r mode s
      then (granted, grant r mode owner s)
      else if leb max_waiters_per_resource (waiter_count_unlocked r s)
      then (busy queue_full, s)
      else (waiting e.0.0 e.0.1, wake o r e.1)

  unfoldable pub acquire_exclusive_write :
      String → ResourceSerializer Tx World → AcquireOutcome Tx × ResourceSerializer Tx World
  acquire_exclusive_write id = acquire (workspace id) LockMode.exclusive request

  unfoldable pub acquire_shell_busy :
      String
      → String
      → ResourceSerializer Tx World
      → AcquireOutcome Tx × ResourceSerializer Tx World
  acquire_shell_busy id process_id = acquire (workspace id) LockMode.exclusive (spawning process_id)

  unfoldable pub acquire_lock :
      Resource
      → LockMode
      → ResourceSerializer Tx World
      → AcquireOutcome Tx × ResourceSerializer Tx World
  acquire_lock r mode = acquire r mode request

  unfoldable pub try_exclusive_write :
      String → ResourceSerializer Tx World → Result (Unit {0}) × ResourceSerializer Tx World
  unfolding is_taken
  try_exclusive_write id s =
      let r = workspace id in
      let s' = wake o r s in
      if process_held r s'
      then (err shell_busy, s')
      else if is_taken r s'
      then (err write_lock_held, s')
      else (ok tt, grant r LockMode.exclusive request s')

  unfoldable pub mark_shell_busy :
      String
      → String
      → ResourceSerializer Tx World
      → Result (Unit {0}) × ResourceSerializer Tx World
  unfolding is_taken
  mark_shell_busy id process_id s =
      let r = workspace id in
      let s' = wake o r s in
      if is_taken r s'
      then (err write_lock_held, s')
      else (ok tt, grant r LockMode.exclusive (ExclusiveHolder.process process_id) s')

  unfoldable pub try_lock :
      Resource
      → LockMode
      → ResourceSerializer Tx World
      → Result (Unit {0}) × ResourceSerializer Tx World
  try_lock r mode s =
      let s' = wake o r s in
      if can_try_grant r mode s' then (ok tt, grant r mode request s') else (err (busy_body r), s')

  unfoldable pub release_write : String → ResourceSerializer Tx World → ResourceSerializer Tx World
  release_write id s =
      let r = workspace id in
      if is_request (get r s.exclusive)
      then wake o r (record s { exclusive = remove r s.exclusive })
      else s

  unfoldable pub clear_shell : String → ResourceSerializer Tx World → ResourceSerializer Tx World
  clear_shell id s =
      let r = workspace id in
      if is_process (get r s.exclusive)
      then wake o r (record s { exclusive = remove r s.exclusive })
      else s

  unfoldable pub release_process :
      String → ResourceSerializer Tx World → ResourceSerializer Tx World
  release_process id s =
      let released = release_matching (belongs_to id) s in wake_all o released.0 released.1

  unfoldable pub release_all_processes : ResourceSerializer Tx World → ResourceSerializer Tx World
  release_all_processes s =
      let released = release_matching is_of_process s in wake_all o released.0 released.1

  unfoldable pub unlock :
      Resource → LockMode → ResourceSerializer Tx World → ResourceSerializer Tx World
  unlock r mode s = wake o r (unlock_silent r mode s)

  -- The body of `cancel_waiter` once the resource has a queue.
  unfoldable pub cancel_in :
      Resource
      → ℕ
      → List (Waiter Tx)
      → ResourceSerializer Tx World
      → Bool × ResourceSerializer Tx World
  cancel_in r id q s =
      let q' = select (λ (w : Waiter Tx). not (nat_beq w.id id)) q in
      let removed = not (nat_beq (length q') (length q)) in
      let s' = set_queue r q' s in (removed, if removed then wake o r s' else s')

  unfoldable pub cancel_waiter :
      Resource → ℕ → ResourceSerializer Tx World → Bool × ResourceSerializer Tx World
  unfolding cancel_in
  cancel_waiter r id s = elim (get r s.waiters) [ none ↦ (false, s) | some q ↦ cancel_in r id q s ]

  unfoldable pub fail_all :
      List Resource → ErrorBody → ResourceSerializer Tx World → ResourceSerializer Tx World
  fail_all [] e s = s
  fail_all (r ∷ rs) e s = fail_all rs e (fail_waiters o r e s)

  unfoldable pub confirm_process :
      String → ResourceSerializer Tx World → ResourceSerializer Tx World
  unfolding fail_all
  confirm_process id s =
      fail_all (keys_where (is_spawning_of id) s.exclusive) shell_busy
        (record s { exclusive = map_values (confirmed id) s.exclusive })

  -- The last lines of `hold_process`.
  unfoldable pub hold :
      Resource
      → String
      → ResourceSerializer Tx World
      → Result (Unit {0}) × ResourceSerializer Tx World
  hold r id s = (
    ok tt,
    fail_waiters o r shell_busy (grant r LockMode.exclusive (ExclusiveHolder.process id) s),
  )

  -- The match of `hold_process`, on what holds the workspace.
  unfoldable pub hold_over :
      Resource
      → String
      → Option ExclusiveHolder
      → ResourceSerializer Tx World
      → Result (Unit {0}) × ResourceSerializer Tx World
  unfolding hold
  hold_over r id (some (ExclusiveHolder.process p)) s =
      if p == id then (ok tt, s) else (err (busy_body r), s)
  hold_over r id (some (spawning p)) s = if p == id then hold r id s else (err (busy_body r), s)
  hold_over r id (some request) s = (err (busy_body r), s)
  hold_over r id none s = if ltb 0 (shared_count r s) then (err (busy_body r), s) else hold r id s

  unfoldable pub hold_process :
      String
      → String
      → ResourceSerializer Tx World
      → Result (Unit {0}) × ResourceSerializer Tx World
  unfolding hold_over
  hold_process id process_id s =
      let r = workspace id in hold_over r process_id (get r s.exclusive) s
