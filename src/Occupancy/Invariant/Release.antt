-- ===== src/Occupancy/Invariant/Release.antt =====
-- The methods that give a resource back keep every resource at rest: `unlock`, `release_write`,
-- `clear_shell`, `release_process`, `release_all_processes` and `cancel_waiter`.
use code_space.Prelude.{
  ℕ, ◌≡◌, refl, Bool, false, not, Option, none, some, List, arith, String, ◌==◌, ==_iff, ==_refl,
  nat_beq, nat_beq_iff, any, select, length, length-select, select_all, All-select, Bool-cases,
  Option-cases, inl, inr,
}
use code_space.Map.{get, get-retain, any-keys_where, holds, keep}
use code_space.Occupancy.Types.{
  Resource, workspace, LockMode, shared_read, ExclusiveHolder, Waiter, ResourceSerializer, Oneshot,
  resource_keyed, is_request, is_process,
}
use code_space.Occupancy.Serializer.{shared_count, queue_of, unlock_silent, set_queue, wake_all}
use code_space.Occupancy.Methods.{
  release_matching, release_write, clear_shell, release_process, release_all_processes, unlock,
  cancel_waiter, cancel_in, belongs_to, is_of_process,
}
use code_space.Occupancy.Slot.{Slot, slot, unlock_slot, slot-unlock_silent, slot-set_queue}
use code_space.Occupancy.Wake.{IsSound, MayWait}
use code_space.Occupancy.Invariant.{IsWellFormed, wake-IsWellFormed, wake_all-IsWellFormed}

pub keep-all :
    (p : ExclusiveHolder → Bool) (h : Option ExclusiveHolder)
    → holds p h ≡ false
    → keep (λ x. not (p x)) h ≡ h
keep-all p none e = refl
keep-all p (some x) e = ground arith

module _ {Tx : Type 0} where
  unlock_slot-IsSound :
      (r : Resource) (mode : LockMode) (v : Slot Tx) → IsSound r v → IsSound r (unlock_slot mode v)
  unlock_slot-IsSound r shared_read v h = ground arith
  unlock_slot-IsSound r LockMode.exclusive v h = ground arith

  keep_holder-IsSound :
      (r : Resource) (p : ExclusiveHolder → Bool) (v : Slot Tx)
      → IsSound r v
      → IsSound r (record v { holder = keep p v.holder })
  keep_holder-IsSound r p v h = ground arith

  fewer_waiters-IsSound :
      (r : Resource) (p : Waiter Tx → Bool) (v : Slot Tx)
      → IsSound r v
      → IsSound r (record v { queue = select p v.queue })
  unfolding select
  fewer_waiters-IsSound r p v h = record {
    exclusion = h.exclusion;
    bounded = omega (arith, length-select p v.queue, h.bounded);
    barrier = elim h.barrier [ inl e ↦ inl e | inr e ↦ inr (rw e) ];
    place = h.place;
    owners = All-select (λ w. MayWait r w.owner) p v.queue h.owners;
  }

module _ {Tx World : Type 0} where
  pub slot-release_matching :
      (p : ExclusiveHolder → Bool) (j : Resource) (s : ResourceSerializer Tx World)
      → slot j (release_matching p s).1
        ≡ record (slot j s) { holder = keep (λ x. not (p x)) (get j s.exclusive) }
  unfolding release_matching shared_count queue_of
  slot-release_matching p j s = rw (get-retain (λ x. not (p x)) j s.exclusive)

  -- A resource that is not released has a holder that does not match.
  unlisted_kept :
      (p : ExclusiveHolder → Bool) (j : Resource) (s : ResourceSerializer Tx World)
      → any (λ r. r == j) (release_matching p s).0 ≡ false
      → holds p (get j s.exclusive) ≡ false
  unfolding release_matching
  unlisted_kept p j s unlisted = elim (Bool-cases (holds p (get j s.exclusive))) [
    | inr e ↦ e
    | inl e ↦ absurd (ground (arith, any-keys_where p j s.exclusive e))
  ]

module _ (o : Oneshot) where
  open o use {Tx, World}

  pub unlock-IsWellFormed :
      (r : Resource) (mode : LockMode) (s : ResourceSerializer Tx World)
      → IsWellFormed s
      → IsWellFormed (unlock o r mode s)
  unfolding unlock
  unlock-IsWellFormed r mode s h =
      wake-IsWellFormed o r (unlock_silent r mode s)
        (rw (slot-unlock_silent r r mode s, ==_refl r)
          (unlock_slot-IsSound r mode (slot r s) (h.settled r).sound))
        (λ j apart. rw (slot-unlock_silent r j mode s, apart) (h.settled j))

  pub release_write-IsWellFormed :
      (id : String) (s : ResourceSerializer Tx World)
      → IsWellFormed s
      → IsWellFormed (release_write o id s)
  unfolding release_write unlock unlock_silent
  release_write-IsWellFormed id s h =
      elim (Bool-cases (is_request (get (workspace id) s.exclusive))) [
        | inl held ↦ rw held (unlock-IsWellFormed (workspace id) LockMode.exclusive s h)
        | inr free ↦ rw free h
      ]

  pub clear_shell-IsWellFormed :
      (id : String) (s : ResourceSerializer Tx World)
      → IsWellFormed s
      → IsWellFormed (clear_shell o id s)
  unfolding clear_shell unlock unlock_silent
  clear_shell-IsWellFormed id s h =
      elim (Bool-cases (is_process (get (workspace id) s.exclusive))) [
        | inl held ↦ rw held (unlock-IsWellFormed (workspace id) LockMode.exclusive s h)
        | inr free ↦ rw free h
      ]

  release_matching-IsWellFormed :
      (p : ExclusiveHolder → Bool) (s : ResourceSerializer Tx World)
      → IsWellFormed s
      → IsWellFormed (wake_all o (release_matching p s).0 (release_matching p s).1)
  release_matching-IsWellFormed p s h =
      wake_all-IsWellFormed o (release_matching p s).0 (release_matching p s).1
        (λ j.
          rw (slot-release_matching p j s)
            (keep_holder-IsSound j (λ x. not (p x)) (slot j s) (h.settled j).sound))
        (λ j unlisted.
          rw
            (
              slot-release_matching p j s,
              keep-all p (get j s.exclusive) (unlisted_kept p j s unlisted),
            )
            (h.settled j))

  pub release_process-IsWellFormed :
      (id : String) (s : ResourceSerializer Tx World)
      → IsWellFormed s
      → IsWellFormed (release_process o id s)
  unfolding release_process
  release_process-IsWellFormed id s h = release_matching-IsWellFormed (belongs_to id) s h

  pub release_all_processes-IsWellFormed :
      (s : ResourceSerializer Tx World) → IsWellFormed s → IsWellFormed (release_all_processes o s)
  unfolding release_all_processes
  release_all_processes-IsWellFormed s h = release_matching-IsWellFormed is_of_process s h

  -- Without a change to the queue no slot changes.
  slot-set_queue_same :
      (r j : Resource) (q : List (Waiter Tx)) (s : ResourceSerializer Tx World)
      → queue_of r s ≡ q
      → slot j (set_queue r q s) ≡ slot j s
  slot-set_queue_same r j q s e = elim (Bool-cases (r == j)) [
    | inr apart ↦ rw (slot-set_queue r j q s, apart)
    | inl same ↦
        let p : queue_of j s ≡ q = rw (← (==_iff r j).0 same) e in
        rw (slot-set_queue r j q s, same) (rw p)
  ]

  cancel_in-IsWellFormed :
      (r : Resource) (id : ℕ) (q : List (Waiter Tx)) (s : ResourceSerializer Tx World)
      → queue_of r s ≡ q
      → IsWellFormed s
      → IsWellFormed (cancel_in o r id q s).1
  unfolding cancel_in
  cancel_in-IsWellFormed r id q s e h =
      let p : Waiter Tx → Bool = λ w. not (nat_beq w.id id) in
      elim (Bool-cases (nat_beq (length (select p q)) (length q))) [
        | inl none_left ↦
            rw (none_left, select_all p q ((nat_beq_iff _ _).0 none_left))
              (record { settled = λ j. rw (slot-set_queue_same r j q s e) (h.settled j) })
        | inr left ↦ rw left (
            wake-IsWellFormed o r (set_queue r (select p q) s)
              (rw (slot-set_queue r r (select p q) s, ==_refl r)
                (rw (← e) (fewer_waiters-IsSound r p (slot r s) (h.settled r).sound)))
              (λ j apart. rw (slot-set_queue r j (select p q) s, apart) (h.settled j)))
      ]

  pub cancel_waiter-IsWellFormed :
      (r : Resource) (id : ℕ) (s : ResourceSerializer Tx World)
      → IsWellFormed s
      → IsWellFormed (cancel_waiter o r id s).1
  unfolding cancel_waiter queue_of
  cancel_waiter-IsWellFormed r id s h = elim (Option-cases (get r s.waiters)) [
    | inl e ↦ rw (e, cancel_waiter) h
    | inr (q, e) ↦ rw (e, cancel_waiter) (cancel_in-IsWellFormed r id q s (rw (e, queue_of)) h)
  ]
