-- ===== src/Occupancy/Invariant/Acquire.antt =====
-- The methods that take a resource keep every resource at rest: `acquire`, `try_exclusive_write`,
-- `mark_shell_busy` and `try_lock`.
use code_space.Prelude.{
  ℕ, ◌<◌, ◌≡◌, refl, ◌⊎◌, true, false, not, ◌&&◌, ◌||◌, Option, some, List, [], ◌∷◌, arith, String,
  ◌==◌, ==_iff, ==_refl, any, length, length-append, All-append, ltb, leb, Bool-cases, inl, inr,
  sym, ◌∙◌,
}
use code_space.Map.{get}
use code_space.Occupancy.Types.{
  Resource, workspace, LockMode, shared_read, ExclusiveHolder, request, Waiter, ResourceSerializer,
  Oneshot, resource_keyed, is_process, is_exclusive, is_workspace,
}
use code_space.Occupancy.Serializer.{
  max_waiters_per_resource, waiter_count_unlocked, has_waiters, has_exclusive_waiter, shared_count,
  process_held, can_grant, can_try_grant, grant, queue_of, new_waiter, enqueue, wake,
}
use code_space.Occupancy.Methods.{
  acquire, try_exclusive_write, mark_shell_busy, try_lock, is_taken, grants_at_once,
}
use code_space.Occupancy.Slot.{
  Slot, slot, grant_slot, open_for, can_grant-slot, slot-grant, slot-enqueue,
}
use code_space.Occupancy.Wake.{IsSound, IsSettled, BlockedBy, MayWait, is_owned}
use code_space.Occupancy.Invariant.{IsWellFormed, wake-IsWellFormed}

module _ {Tx : Type 0} where
  -- A grant with nobody waiting keeps the slot at rest.
  grant_slot-IsSettled :
      (r : Resource) (mode : LockMode) (h : ExclusiveHolder) (v : Slot Tx)
      → IsSound r (record v { queue = [] })
      → (is_owned (some h) ≡ false) ⊎ (is_workspace r ≡ true)
      → open_for mode v.holder v.shared ≡ true
      → IsSettled r (grant_slot mode h (record v { queue = [] }))
  grant_slot-IsSettled r shared_read h v k p e = record {
    sound = record {
      exclusion = inl (ground arith);
      bounded = k.bounded;
      barrier = k.barrier;
      place = k.place;
      owners = tt;
    };
    blocked = tt;
  }
  grant_slot-IsSettled r LockMode.exclusive h v k p e = record {
    sound = record {
      exclusion = inr (ground arith);
      bounded = k.bounded;
      barrier = inr refl;
      place = p;
      owners = tt;
    };
    blocked = tt;
  }

  -- A resource at rest that can be granted, past the fairness tests, has no waiters.
  nobody_waits :
      (mode : LockMode) (h : Option ExclusiveHolder) (n : ℕ) (q : List (Waiter Tx))
      → BlockedBy h n q
      → open_for mode h n ≡ true
      → (not (is_exclusive mode) && any (λ (w : Waiter Tx). is_exclusive w.mode) q) ≡ false
      → (not (is_exclusive mode) || not (ltb 0 (length q))) ≡ true
      → q ≡ []
  unfolding any
  nobody_waits mode h n [] b e f g = refl
  nobody_waits shared_read h n (w ∷ q) b e f g = ground arith
  nobody_waits LockMode.exclusive h n (w ∷ q) b e f g = ground arith

  no_entries : (q : List (Waiter Tx)) → ltb 0 (length q) ≡ false → q ≡ []
  no_entries [] e = refl
  no_entries (w ∷ q) e = ground arith

module _ {Tx World : Type 0} where
  waiter_count-length :
      (r : Resource) (s : ResourceSerializer Tx World)
      → waiter_count_unlocked r s ≡ length (queue_of r s)
  unfolding waiter_count_unlocked queue_of
  waiter_count-length r s = ground arith

  has_exclusive_waiter-any :
      (r : Resource) (s : ResourceSerializer Tx World)
      → has_exclusive_waiter r s ≡ any (λ (w : Waiter Tx). is_exclusive w.mode) (queue_of r s)
  unfolding has_exclusive_waiter queue_of any
  has_exclusive_waiter-any r s = ground arith

  grant-IsWellFormed :
      (r : Resource) (mode : LockMode) (h : ExclusiveHolder) (s : ResourceSerializer Tx World)
      → (is_owned (some h) ≡ false) ⊎ (is_workspace r ≡ true)
      → can_grant r mode s ≡ true
      → queue_of r s ≡ []
      → IsWellFormed s
      → IsWellFormed (grant r mode h s)
  grant-IsWellFormed r mode h s p e q k = record {
    settled = λ j. elim (Bool-cases (r == j)) [
      | inl same ↦
          let sound : IsSound r (record (slot r s) { queue = [] }) =
            rw q at ((k.settled r).sound) in
          rw (← (==_iff r j).0 same) (
            rw (slot-grant r r mode h s, ==_refl r)
              (rw q (
                grant_slot-IsSettled r mode h (slot r s) sound p
                  (sym (can_grant-slot r mode s) ∙ e))))
      | inr apart ↦ rw (slot-grant r j mode h s, apart) (k.settled j)
    ];
  }

  -- The branch of `acquire` that grants at once.
  granted-IsWellFormed :
      (r : Resource) (mode : LockMode) (h : ExclusiveHolder) (s : ResourceSerializer Tx World)
      → MayWait r h
      → grants_at_once r mode s ≡ true
      → IsWellFormed s
      → IsWellFormed (grant r mode h s)
  unfolding has_waiters
  granted-IsWellFormed r mode h s p e k =
      grant-IsWellFormed r mode h s p.1 (ground arith)
        (nobody_waits mode (get r s.exclusive) (shared_count r s) (queue_of r s)
          (k.settled r).blocked (sym (can_grant-slot r mode s) ∙ ground arith)
          (ground (arith, has_exclusive_waiter-any r s)) (ground (arith, waiter_count-length r s)))
        k

  below_limit :
      (r : Resource) (s : ResourceSerializer Tx World)
      → leb max_waiters_per_resource (waiter_count_unlocked r s) ≡ false
      → length (queue_of r s) < max_waiters_per_resource
  below_limit r s e = ground (arith, waiter_count-length r s)

  held_by_no_process :
      (r : Resource) (s : ResourceSerializer Tx World)
      → process_held r s ≡ false
      → IsSound r (slot r s)
      → is_process (get r s.exclusive) ≡ false
  unfolding process_held
  held_by_no_process r s e k = ground (arith, k.place)

  -- What is not taken is free, and nobody waits for it.
  untaken :
      (r : Resource) (s : ResourceSerializer Tx World)
      → is_taken r s ≡ false
      → (can_grant r LockMode.exclusive s ≡ true) × (queue_of r s ≡ [])
  unfolding is_taken can_grant has_waiters
  untaken r s e =
      (ground arith, no_entries (queue_of r s) (ground (arith, waiter_count-length r s)))

module _ (o : Oneshot) where
  open o use {Tx, World}

  -- The branch of `acquire` that waits.
  waiting-IsWellFormed :
      (r : Resource) (mode : LockMode) (h : ExclusiveHolder) (s : ResourceSerializer Tx World)
      → MayWait r h
      → process_held r s ≡ false
      → leb max_waiters_per_resource (waiter_count_unlocked r s) ≡ false
      → IsWellFormed s
      → IsWellFormed (wake o r (enqueue o r mode h s).1)
  waiting-IsWellFormed r mode h s p free room k =
      wake-IsWellFormed o r (enqueue o r mode h s).1
        (rw (slot-enqueue o r r mode h s, ==_refl r)
          (record {
            exclusion = (k.settled r).sound.exclusion;
            bounded = omega (
              arith,
              length-append (queue_of r s) (new_waiter o mode h s ∷ []),
              below_limit r s room,
            );
            barrier = inl (held_by_no_process r s free (k.settled r).sound);
            place = (k.settled r).sound.place;
            owners =
                All-append (λ (w : Waiter Tx). MayWait r w.owner) (queue_of r s)
                  (new_waiter o mode h s ∷ []) (k.settled r).sound.owners (p, tt);
          }))
        (λ j apart. rw (slot-enqueue o r j mode h s, apart) (k.settled j))

  pub acquire-IsWellFormed :
      (r : Resource) (mode : LockMode) (h : ExclusiveHolder) (s : ResourceSerializer Tx World)
      → MayWait r h
      → IsWellFormed s
      → IsWellFormed (acquire o r mode h s).1
  unfolding acquire
  acquire-IsWellFormed r mode h s p k = elim (Bool-cases (process_held r s)) [
    | inl held ↦ rw held k
    | inr free ↦ elim (Bool-cases (grants_at_once r mode s)) [
      | inl now ↦ rw (free, now) (granted-IsWellFormed r mode h s p now k)
      | inr later ↦ elim (Bool-cases (leb max_waiters_per_resource (waiter_count_unlocked r s))) [
        | inl full ↦ rw (free, later, full) k
        | inr room ↦ rw (free, later, room) (waiting-IsWellFormed r mode h s p free room k)
      ]
    ]
  ]

  -- `wake` at the start of the `try` methods.
  woken :
      (r : Resource) (s : ResourceSerializer Tx World) → IsWellFormed s → IsWellFormed (wake o r s)
  woken r s k = wake-IsWellFormed o r s (k.settled r).sound (λ j apart. k.settled j)

  pub try_exclusive_write-IsWellFormed :
      (id : String) (s : ResourceSerializer Tx World)
      → IsWellFormed s
      → IsWellFormed (try_exclusive_write o id s).1
  unfolding try_exclusive_write
  try_exclusive_write-IsWellFormed id s k =
      let r = workspace id in
      let s' = wake o r s in
      elim (Bool-cases (process_held r s')) [
        | inl held ↦ rw held (woken r s k)
        | inr free ↦ elim (Bool-cases (is_taken r s')) [
          | inl taken ↦ rw (free, taken) (woken r s k)
          | inr open_ ↦
              rw (free, open_)
                (grant-IsWellFormed r LockMode.exclusive request s' (inl refl)
                  (untaken r s' open_).0 (untaken r s' open_).1 (woken r s k))
        ]
      ]

  pub mark_shell_busy-IsWellFormed :
      (id process_id : String) (s : ResourceSerializer Tx World)
      → IsWellFormed s
      → IsWellFormed (mark_shell_busy o id process_id s).1
  unfolding mark_shell_busy
  mark_shell_busy-IsWellFormed id process_id s k =
      let r = workspace id in
      let s' = wake o r s in
      elim (Bool-cases (is_taken r s')) [
        | inl taken ↦ rw taken (woken r s k)
        | inr open_ ↦ rw open_ (
            grant-IsWellFormed r LockMode.exclusive (ExclusiveHolder.process process_id) s'
              (inr refl) (untaken r s' open_).0 (untaken r s' open_).1 (woken r s k))
      ]

  pub try_lock-IsWellFormed :
      (r : Resource) (mode : LockMode) (s : ResourceSerializer Tx World)
      → IsWellFormed s
      → IsWellFormed (try_lock o r mode s).1
  unfolding try_lock can_try_grant
  try_lock-IsWellFormed r mode s k =
      let s' = wake o r s in
      elim (Bool-cases (can_try_grant r mode s')) [
        | inr taken ↦ rw taken (woken r s k)
        | inl open_ ↦ rw open_ (
            granted-IsWellFormed r mode request s' (refl, inl refl) (tried r mode s' open_)
              (woken r s k))
      ]
    where
      tried :
          (r : Resource) (mode : LockMode) (s : ResourceSerializer Tx World)
          → can_try_grant r mode s ≡ true
          → grants_at_once r mode s ≡ true
      tried r shared_read s e = ground arith
      tried r LockMode.exclusive s e = ground arith
