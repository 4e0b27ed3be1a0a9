-- ===== src/Runner/Limit.antt =====
-- crates/runner/src/process.rs: the processes that live and the slots that are taken stay within the
-- limit.
use code_space.Prelude.{
  ℕ, suc, ◌-◌, ◌≤◌, String, ◌≡◌, refl, Bool, true, false, not, Option, none, some, List, [], ◌∷◌,
  ◌==◌, string_keyed, leb, ◌&&◌, if◌then◌else◌, length, any, select, length-select, inl, inr, arith,
  Bool-cases, ℤ,
}
use code_space.Map.{Map, get, insert, remove, retain, update}
use code_space.Runner.Lifecycle.{ProcessSignal}
use code_space.Runner.Slots.{
  Slot, Runner, RetentionPolicy, Received, live_count, completed, release_handle, evict_slot,
  evict_from, is_stale, remove_first, evict_released, ended_ids, evict_completed, is_reserved,
  occupied, reserve_in, reserve_slot, free_reservation, remember, fill, note_received, recall,
  acknowledge, acknowledge_all, may_acknowledge, executed,
}

live_count-remove : (id : String) (m : Map String Slot) → live_count (remove id m) ≤ live_count m
unfolding live_count remove
live_count-remove id [] = omega arith
live_count-remove id ((j, s) ∷ m) = ground (arith, live_count-remove id m)

live_count-insert :
    (id : String) (s : Slot) (m : Map String Slot) → live_count (insert id s m) ≤ suc (live_count m)
unfolding live_count insert
live_count-insert id s m = ground (arith, live_count-remove id m)

live_count-retain : (p : Slot → Bool) (m : Map String Slot) → live_count (retain p m) ≤ live_count m
unfolding live_count retain
live_count-retain p [] = omega arith
live_count-retain p ((j, s) ∷ m) =
    ground (arith, live_count-retain p m, live_count-remove j (retain p m))

-- A change that revives no output.
live_count-update :
    (id : String) (p : Slot → Bool) (f : Slot → Slot) (m : Map String Slot)
    → ((s : Slot) → s.output.eof ≡ true → (f s).output.eof ≡ true)
    → live_count (update id p f m) ≤ live_count m
unfolding live_count update
live_count-update id p f [] h = omega arith
live_count-update id p f ((j, s) ∷ m) h = ground (arith, live_count-update id p f m h, h s)

evict_slot-live :
    (keep : Option ℕ) (id : String) (m : Map String Slot)
    → live_count (evict_slot keep id m) ≤ live_count m
evict_slot-live keep id m =
    ground
      (arith, live_count-update id (λ s. true) release_handle m (λ s h. h), live_count-remove id m)

evict_from-live :
    (policy : RetentionPolicy) (keep : Option ℕ) (now over index : ℕ) (ids : List String)
    (m : Map String Slot)
    → live_count (evict_from policy keep now over index ids m) ≤ live_count m
unfolding evict_from
evict_from-live policy keep now over index [] m = omega arith
evict_from-live policy keep now over index (id ∷ ids) m = omega (
  arith,
  one (leb over index && leb (now - completed (get id m)) policy.ttl),
  evict_from-live policy keep now over (suc index) ids (
      if leb over index && leb (now - completed (get id m)) policy.ttl
      then m
      else evict_slot keep id m),
)
  where
    one : (t : Bool) → live_count (if t then m else evict_slot keep id m) ≤ live_count m
    one true = omega arith
    one false = evict_slot-live keep id m

remove_first-live :
    (n : ℕ) (ids : List String) (m : Map String Slot)
    → live_count (remove_first n ids m) ≤ live_count m
unfolding remove_first
remove_first-live n [] m = omega arith
remove_first-live n (id ∷ ids) m =
    ground (arith, remove_first-live (n - 1) ids (remove id m), live_count-remove id m)

evict_released-live :
    (policy : RetentionPolicy) (now : ℕ) (keep : Option ℕ) (m : Map String Slot)
    → live_count (evict_released policy now keep m) ≤ live_count m
evict_released-live policy now none m = omega arith
evict_released-live policy now (some keep) m =
    let fresh : Map String Slot = retain (λ s. not (is_stale policy now s)) m in
    ground (
      arith,
      live_count-retain (λ s. not (is_stale policy now s)) m,
      remove_first-live (length (ended_ids true fresh) - keep) (ended_ids true fresh) fresh,
    )

evict-occupied : (now : ℕ) (r : Runner) → occupied (evict_completed now r) ≤ occupied r
unfolding evict_completed
evict-occupied now r =
    let over : ℕ = length (ended_ids false r.inner) - r.retention.max_completed in
    let kept : Map String Slot =
      evict_from r.retention r.memory.keep now over 0 (ended_ids false r.inner) r.inner in
    omega (
      arith,
      evict_released-live r.retention now r.memory.keep kept,
      evict_from-live r.retention r.memory.keep now over 0 (ended_ids false r.inner) r.inner,
    )

-- Dropping a reservation that is there frees its slot.
reserved-drop :
    (id : String) (ids : List String)
    → is_reserved id ids ≡ true
    → suc (length (select (λ i. not (i == id)) ids)) ≤ length ids
unfolding any select
reserved-drop id [] h = cc
reserved-drop id (i ∷ ids) h =
    ground (arith, reserved-drop id ids, length-select (λ i. not (i == id)) ids)

remember-occupied :
    (id : String) (known : Received) (r : Runner) → occupied (remember id known r) ≡ occupied r
unfolding remember
remember-occupied id known r = ground arith

remember-limit :
    (id : String) (known : Received) (r : Runner) → (remember id known r).limit ≡ r.limit
unfolding remember
remember-limit id known r = ground arith

acknowledge_all-live :
    (now : ℕ) (ids : List String) (m : Map String Slot)
    → live_count (acknowledge_all now ids m) ≤ live_count m
unfolding acknowledge_all
acknowledge_all-live now [] m = omega arith
acknowledge_all-live now (id ∷ ids) m = omega (
  arith,
  live_count-update id may_acknowledge (λ s. record s { acknowledged = some now }) m (λ s h. h),
  acknowledge_all-live now ids
      (update id may_acknowledge (λ s. record s { acknowledged = some now }) m),
)

-- What can happen to a runner: its methods, and the end of a process's output.
pub data Event : Type 0 where
  reserves : ℕ → String → Event
  drops : String → Event
  fills : ℕ → String → Slot → Event
  ends : ℕ → String → Event
  receives : String → Event
  recalls : ℕ → String → Event
  acknowledges : ℕ → List String → Event

abbrev pub at_end : ℕ → Slot → Slot
at_end now s = record s { output = record s.output { eof = true }; completed_at = some now }

-- A reservation is filled by the one who holds it.
abbrev pub filled : ℕ → String → Slot → Runner → Runner
filled now id slot r = if is_reserved id r.reserved then fill now id slot r else r

unfoldable pub happen : (ℤ → ProcessSignal) → Event → Runner → Runner
happen sig (reserves now id) r = (reserve_slot now id r).0
happen sig (drops id) r = free_reservation id r
happen sig (fills now id slot) r = filled now id slot r
happen sig (ends now id) r = record r { inner = update id (λ s. true) (at_end now) r.inner }
happen sig (receives id) r = note_received id r
happen sig (recalls now id) r = (recall sig now id r).0
happen sig (acknowledges now ids) r = acknowledge now ids r

unfoldable pub happens : (ℤ → ProcessSignal) → List Event → Runner → Runner
unfolding happen
happens sig [] r = r
happens sig (e ∷ es) r = happens sig es (happen sig e r)

abbrev pub IsWithin : Runner → Type 0
IsWithin r = occupied r ≤ r.limit

reserve-IsWithin : (id : String) (r : Runner) → IsWithin r → IsWithin (reserve_in id r).0
reserve-IsWithin id r h = ground arith

fill-IsWithin :
    (now : ℕ) (id : String) (slot : Slot) (r : Runner)
    → is_reserved id r.reserved ≡ true
    → IsWithin r
    → IsWithin (fill now id slot r)
unfolding fill evict_completed free_reservation
fill-IsWithin now id slot r held h =
    let evicted : Runner = evict_completed now r in
    let given : Runner =
      free_reservation id (record evicted { inner = insert id slot evicted.inner }) in
    omega (
      arith,
      remember-occupied id executed given,
      remember-limit id executed given,
      reserved-drop id r.reserved held,
      live_count-insert id slot evicted.inner,
      evict-occupied now r,
      h,
    )

happen-IsWithin :
    (sig : ℤ → ProcessSignal) (e : Event) (r : Runner) → IsWithin r → IsWithin (happen sig e r)
unfolding happen reserve_slot free_reservation note_received recall acknowledge evict_completed
happen-IsWithin sig (reserves now id) r h =
    reserve-IsWithin id (evict_completed now r) (omega (arith, evict-occupied now r, h))
happen-IsWithin sig (drops id) r h = omega (arith, length-select (λ i. not (i == id)) r.reserved, h)
happen-IsWithin sig (fills now id slot) r h = elim (Bool-cases (is_reserved id r.reserved)) [
  | inl e ↦ rw e (fill-IsWithin now id slot r e h)
  | inr e ↦ rw e h
]
happen-IsWithin sig (ends now id) r h =
    omega (arith, live_count-update id (λ s. true) (at_end now) r.inner (λ s k. refl), h)
happen-IsWithin sig (receives id) r h =
    omega (arith, remember-occupied id Received.refused r, remember-limit id Received.refused r, h)
happen-IsWithin sig (recalls now id) r h = omega (arith, evict-occupied now r, h)
happen-IsWithin sig (acknowledges now ids) r h = omega (
  arith,
  evict-occupied now (record r { inner = acknowledge_all now ids r.inner }),
  acknowledge_all-live now ids r.inner,
  h,
)

-- The live processes and the slots taken for new ones stay within the limit, whatever happens; a slot
-- is filled only by the one who reserved it.
pub happens-IsWithin :
    (sig : ℤ → ProcessSignal) (es : List Event) (r : Runner)
    → IsWithin r
    → IsWithin (happens sig es r)
unfolding happens
happens-IsWithin sig [] r h = h
happens-IsWithin sig (e ∷ es) r h =
    happens-IsWithin sig es (happen sig e r) (happen-IsWithin sig e r h)
