-- ===== src/Runner/Remembered.antt =====
-- crates/runner/src/process.rs: a runner does not forget the processes that it created.
use code_space.Prelude.{
  ℕ, ℤ, String, ◌≡◌, ◌⊎◌, refl, ap, ◌∙◌, true, false, some, List, [], ◌∷◌, ◌==◌, ==_iff, ==_refl,
  string_keyed, if◌then◌else◌, is_none, inl, inr, arith, Bool-cases, Option-cases,
}
use code_space.Map.{get, get-insert}
use code_space.Runner.Lifecycle.{ProcessSignal, RunnerProcessStatus, slot_status}
use code_space.Runner.Slots.{
  Slot, Runner, Received, executed, dropped, held, known_as, is_reserved, reserve_in,
  evict_completed, reserve_slot, free_reservation, remember, fill, note_received, recall,
  acknowledge,
}
use code_space.Runner.Limit.{
  Event, reserves, drops, fills, ends, receives, recalls, acknowledges, happen, happens,
}

-- The runner keeps what its controllers need, and knows that it created the process.
record IsCreated (id : String) (r : Runner) : Type 0 where
  keeps : is_none r.memory.keep ≡ false
  known : get id r.memory.received ≡ some executed

remember-IsCreated :
    (id j : String) (received : Received) (r : Runner)
    → IsCreated id r
    → IsCreated id (remember j received r)
unfolding remember
remember-IsCreated id j received r h =
    rw (remember, h.keeps)
      (record {
        keeps = h.keeps;
        known =
            get-insert j id (known_as received (get j r.memory.received)) r.memory.received
            ∙ again (Bool-cases (j == id));
      })
  where
    again :
        ((j == id) ≡ true) ⊎ ((j == id) ≡ false)
        → (if j == id
            then some (known_as received (get j r.memory.received))
            else get id r.memory.received)
          ≡ some executed
    again (inl e) =
        let same : get j r.memory.received ≡ some executed =
          ap (λ k. get k r.memory.received) ((==_iff j id).0 e) ∙ h.known in
        rw (e, same) (ap some (stays received))
      where
        stays : (x : Received) → known_as x (some executed) ≡ executed
        stays executed = refl
        stays Received.refused = refl
    again (inr e) = rw e h.known

fill-IsCreated :
    (now : ℕ) (id : String) (slot : Slot) (r : Runner)
    → is_none r.memory.keep ≡ false
    → IsCreated id (fill now id slot r)
unfolding fill remember evict_completed free_reservation
fill-IsCreated now id slot r h =
    rw (fill, remember, h)
      (record {
        keeps = h;
        known = get-insert id id executed r.memory.received ∙ rw (==_refl id) refl;
      })

-- The memory is what matters.
by_memory : (id : String) {r s : Runner} → s.memory ≡ r.memory → IsCreated id r → IsCreated id s
by_memory id e h = record {
  keeps = ap (λ m. is_none m.keep) e ∙ h.keeps;
  known = ap (λ m. get id m.received) e ∙ h.known;
}

reserve-memory : (id : String) (r : Runner) → (reserve_in id r).0.memory ≡ r.memory
reserve-memory id r = ground arith

happen-IsCreated :
    (sig : ℤ → ProcessSignal) (id : String) (e : Event) (r : Runner)
    → IsCreated id r
    → IsCreated id (happen sig e r)
unfolding happen reserve_slot free_reservation note_received recall acknowledge evict_completed fill
happen-IsCreated sig id (reserves now j) r h =
    by_memory id {r = r} (reserve-memory j (evict_completed now r)) h
happen-IsCreated sig id (drops j) r h = by_memory id {r = r} refl h
happen-IsCreated sig id (fills now j slot) r h = elim (Bool-cases (is_reserved j r.reserved)) [
  | inr e ↦ rw e h
  | inl e ↦ rw e (remember-IsCreated id j executed _ (by_memory id {r = r} refl h))
]
happen-IsCreated sig id (ends now j) r h = by_memory id {r = r} refl h
happen-IsCreated sig id (receives j) r h = remember-IsCreated id j Received.refused r h
happen-IsCreated sig id (recalls now j) r h = by_memory id {r = r} refl h
happen-IsCreated sig id (acknowledges now ids) r h = by_memory id {r = r} refl h

happens-IsCreated :
    (sig : ℤ → ProcessSignal) (id : String) (es : List Event) (r : Runner)
    → IsCreated id r
    → IsCreated id (happens sig es r)
unfolding happens
happens-IsCreated sig id [] r h = h
happens-IsCreated sig id (e ∷ es) r h =
    happens-IsCreated sig id es (happen sig e r) (happen-IsCreated sig id e r h)

-- A runner that keeps what its controllers need, and that created a process, later answers that it
-- holds the process or that it dropped it: never that it refused it or did not receive it.
pub recall-fill :
    (sig : ℤ → ProcessSignal) (now later : ℕ) (id : String) (slot : Slot) (es : List Event)
    (r : Runner)
    → is_none r.memory.keep ≡ false
    → ((recall sig later id (happens sig es (fill now id slot r))).1 ≡ dropped)
      ⊎ ((workspace_id : String) × (status : RunnerProcessStatus) × ((recall sig later id
              (happens sig es (fill now id slot r))).1
            ≡ held workspace_id status))
unfolding recall evict_completed
recall-fill sig now later id slot es r h =
    let s : Runner = happens sig es (fill now id slot r) in
    let created : IsCreated id s =
      happens-IsCreated sig id es (fill now id slot r) (fill-IsCreated now id slot r h) in
    elim (Option-cases (get id (evict_completed later s).inner)) [
      | inl e ↦ inl (rw (recall, e, created.known) refl)
      | inr (found, e) ↦
          inr (
            found.workspace_id,
            slot_status sig id found.lifecycle found.output,
            rw (recall, e) refl,
          )
    ]
