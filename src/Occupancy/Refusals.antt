-- ===== src/Occupancy/Refusals.antt =====
-- What the serializer of crates/store/src/resource.rs refuses, and what a refusal leaves as it is.
use code_space.Prelude.{
  Option, none, if◌then◌else◌, ◌≡◌, refl, Bool, false, some, List, [], ◌∷◌, arith, String, not, ap,
  ◌∙◌, ◌==◌, string_keyed, ==_refl, ==_iff, Bool-cases, inl, inr, any,
}
use code_space.Domain.Error.{ok, err}
use code_space.Map.{get, keys_where, holds, keep, holds-any-keys_where}
use code_space.Occupancy.Types.{
  Resource, workspace, request, spawning, LockMode, shared_read, ExclusiveHolder,
  ResourceSerializer, busy, Oneshot, resource_keyed,
}
use code_space.Occupancy.Serializer.{
  shell_busy, write_lock_held, process_held_busy, busy_body, can_grant, can_try_grant, process_held,
  queue_of, wake, wake_from, wake_all,
}
use code_space.Occupancy.Methods.{
  acquire, try_lock, try_exclusive_write, mark_shell_busy, hold_process, hold_over, is_taken,
  release_process, release_matching, belongs_to,
}
use code_space.Occupancy.Slot.{Slot, slot, slot-set_queue}
use code_space.Occupancy.Wake.{slot-wake_ne}
use code_space.Occupancy.Invariant.{IsWellFormed}
use code_space.Occupancy.Invariant.Release.{slot-release_matching, keep-all}

-- The holder once a process is gone: its spawning and its confirmed leases are free.
abbrev pub without : String → Option ExclusiveHolder → Option ExclusiveHolder
without id none = none
without id (some request) = some request
without id (some (spawning p)) = if p == id then none else some (spawning p)
without id (some (ExclusiveHolder.process p)) =
    if p == id then none else some (ExclusiveHolder.process p)

keep_without :
    (id : String) (h : Option ExclusiveHolder) → keep (λ x. not (belongs_to id x)) h ≡ without id h
keep_without id none = refl
keep_without id (some request) = refl
keep_without id (some (spawning p)) = ground arith
keep_without id (some (ExclusiveHolder.process p)) = ground arith

without_same :
    (id : String) (h : Option ExclusiveHolder) → without id h ≡ h → holds (belongs_to id) h ≡ false
without_same id none e = refl
without_same id (some request) e = refl
without_same id (some (spawning p)) e = ground arith
without_same id (some (ExclusiveHolder.process p)) e = ground arith

module _ (o : Oneshot) where
  open o use {Tx, World}

  -- With nobody waiting, `wake` changes no slot.
  pub slot-wake_idle :
      (r j : Resource) (s : ResourceSerializer Tx World)
      → queue_of j s ≡ []
      → slot j (wake o r s) ≡ slot j s
  unfolding wake wake_from
  slot-wake_idle r j s e = elim (Bool-cases (r == j)) [
    | inr apart ↦ slot-wake_ne o r j s apart
    | inl same ↦
        let p : queue_of r s ≡ [] = rw ((==_iff r j).0 same) e in
        rw (p, wake_from) (slot-set_queue r j [] s ∙ rw (same, e))
  ]

  slot-wake_all_idle :
      (rs : List Resource) (j : Resource) (s : ResourceSerializer Tx World)
      → queue_of j s ≡ []
      → slot j (wake_all o rs s) ≡ slot j s
  unfolding wake_all
  slot-wake_all_idle [] j s e = refl
  slot-wake_all_idle (r ∷ rs) j s e =
      let same = slot-wake_idle r j s e in
      slot-wake_all_idle rs j (wake o r s) (ap (λ (x : Slot Tx). x.queue) same ∙ e) ∙ same

  slot-wake_all_ne :
      (rs : List Resource) (j : Resource) (s : ResourceSerializer Tx World)
      → any (λ r. r == j) rs ≡ false
      → slot j (wake_all o rs s) ≡ slot j s
  unfolding wake_all any
  slot-wake_all_ne [] j s e = refl
  slot-wake_all_ne (r ∷ rs) j s e =
      slot-wake_all_ne rs j (wake o r s) (ground arith) ∙ slot-wake_ne o r j s (ground arith)

  unmatched_unlisted :
      (p : ExclusiveHolder → Bool) (j : Resource) (s : ResourceSerializer Tx World)
      → holds p (get j s.exclusive) ≡ false
      → any (λ r. r == j) (release_matching p s).0 ≡ false
  unfolding release_matching
  unmatched_unlisted p j s e = elim (Bool-cases (any (λ r. r == j) (keys_where p s.exclusive))) [
    | inr n ↦ n
    | inl m ↦ absurd (ground (arith, holds-any-keys_where p j s.exclusive m))
  ]

  -- `release_process` leaves alone what the process holds neither spawning nor confirmed: such a
  -- resource keeps its holder, its shared holders and its waiters.
  release_process_keeps :
      (id : String) (j : Resource) (s : ResourceSerializer Tx World)
      → without id (get j s.exclusive) ≡ get j s.exclusive
      → slot j (release_process o id s) ≡ slot j s
  unfolding release_process
  release_process_keeps id j s e =
      let p : ExclusiveHolder → Bool = belongs_to id in
      let released = release_matching p s in
      let apart : holds p (get j s.exclusive) ≡ false = without_same id (get j s.exclusive) e in
      slot-wake_all_ne released.0 j released.1 (unmatched_unlisted p j s apart)
      ∙ slot-release_matching p j s
      ∙ rw (keep-all p (get j s.exclusive) apart)

  -- After `release_process` a resource that nobody waited for is free if the process held it,
  -- spawning or confirmed, and held as before if not; its shared holders stay, and nobody waits.
  pub release_process_frees :
      (id : String) (j : Resource) (s : ResourceSerializer Tx World)
      → queue_of j s ≡ []
      → slot j (release_process o id s)
        ≡ record (slot j s) { holder = without id (get j s.exclusive) }
  unfolding release_process
  release_process_frees id j s e =
      let p : ExclusiveHolder → Bool = belongs_to id in
      let released = release_matching p s in
      let same = slot-release_matching p j s in
      slot-wake_all_idle released.0 j released.1 (ap (λ (x : Slot Tx). x.queue) same ∙ e)
      ∙ same
      ∙ ap (λ h. record (slot j s) { holder = h }) (keep_without id (get j s.exclusive))

  -- While a confirmed process holds a workspace of a serializer at rest, `acquire`, `try_lock`,
  -- `try_exclusive_write` and `mark_shell_busy` refuse the workspace, in any mode, and so does
  -- `hold_process` any other process; only the error tells them apart.
  pub process_barrier :
      (id p other : String) (mode : LockMode) (h : ExclusiveHolder)
      (s : ResourceSerializer Tx World)
      → IsWellFormed s
      → get (workspace id) s.exclusive ≡ some (ExclusiveHolder.process p)
      → (p == other) ≡ false
      → ((acquire o (workspace id) mode h s).0 ≡ busy shell_busy)
        × ((try_lock o (workspace id) mode s).0 ≡ err (busy_body (workspace id)))
        × ((try_exclusive_write o id s).0 ≡ err shell_busy)
        × ((mark_shell_busy o id other s).0 ≡ err write_lock_held)
        × ((hold_process o id other s).0 ≡ err write_lock_held)
        × ((hold_process o id p s).0 ≡ ok tt)
  unfolding acquire try_lock can_try_grant can_grant try_exclusive_write mark_shell_busy
      hold_process hold_over is_taken process_held process_held_busy busy_body
  process_barrier id p other mode h s k e n = (
    ground arith,
    held_try,
    ground (arith, woken),
    ground (arith, woken),
    ground arith,
    ground (arith, ==_refl p),
  )
    where
      woken :
          get (workspace id) (wake o (workspace id) s).exclusive ≡ some (ExclusiveHolder.process p)
      woken =
          ap (λ (x : Slot Tx). x.holder)
            (slot-wake_idle (workspace id) (workspace id) s
              (ground (arith, (k.settled (workspace id)).sound.barrier)))
          ∙ e

      held_try : (try_lock o (workspace id) mode s).0 ≡ err (busy_body (workspace id))
      held_try = elim mode [
        | shared_read ↦ ground (arith, woken)
        | LockMode.exclusive ↦ ground (arith, woken)
      ]
