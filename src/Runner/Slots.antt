-- ===== src/Runner/Slots.antt =====
-- crates/runner/src/process.rs: the slots of a runner, what it keeps of processes that ended, and what
-- it remembers for its controllers. Instants are natural numbers.
use Prim.Native.String.{◌++◌}
use code_space.Prelude.{
  ℕ, suc, ◌+◌, ◌-◌, String, Bool, true, false, not, Option, none, some, List, [], ◌∷◌, ◌==◌,
  string_keyed, ltb, leb, ◌&&◌, if◌then◌else◌, length, any, select, order_by, is_some, is_none,
}
use code_space.Domain.Error.{ErrorBody, ErrorCode, new, Result, ok, err}
use code_space.Map.{Map, get, insert, remove, retain, update, keys_where}
use code_space.Runner.Output.{OutputBuf}
use code_space.Runner.Lifecycle.{Lifecycle, ProcessSignal, RunnerProcessStatus, slot_status}
use code_space.Prelude.{ℤ}

-- A slot with its handle, or with the handle released.
pub record Slot : Type 0 where
  pub workspace_id : String
  pub released : Bool
  pub output : OutputBuf
  pub lifecycle : Lifecycle
  pub completed_at : Option ℕ
  pub acknowledged : Option ℕ

pub data Received : Type 0 where
  executed refused : Received

pub record Memory : Type 0 where
  pub keep : Option ℕ
  pub received : Map String Received

pub record RetentionPolicy : Type 0 where
  pub ttl : ℕ
  pub max_completed : ℕ

pub record Runner : Type 0 where
  pub inner : Map String Slot
  pub reserved : List String
  pub memory : Memory
  pub limit : ℕ
  pub retention : RetentionPolicy

pub data Recalled : Type 0 where
  not_received refused dropped : Recalled
  held : String → RunnerProcessStatus → Recalled

-- The slots whose output has not ended.
unfoldable pub live_count : Map String Slot → ℕ
live_count [] = 0
live_count ((id, slot) ∷ m) = let rest = live_count m in if slot.output.eof then rest else suc rest

abbrev pub completed : Option Slot → ℕ
completed none = 0
completed (some slot) = elim slot.completed_at [ none ↦ 0 | some at ↦ at ]

abbrev pub has_ended : Bool → Slot → Bool
has_ended released slot =
    (if released then slot.released else not slot.released) && is_some slot.completed_at

-- The ended processes, with or without a handle, from the oldest.
abbrev pub ended_ids : Bool → Map String Slot → List String
ended_ids released m =
    order_by (λ a b. leb (completed (get a m)) (completed (get b m)))
      (keys_where (has_ended released) m)

abbrev pub release_handle : Slot → Slot
release_handle slot = record slot { released = true }

-- What becomes of one ended process that is not retained.
abbrev pub evict_slot : Option ℕ → String → Map String Slot → Map String Slot
evict_slot keep id m =
    if is_some keep && unacknowledged (get id m)
    then update id (λ s. true) release_handle m
    else remove id m
  where
    unacknowledged : Option Slot → Bool
    unacknowledged none = false
    unacknowledged (some slot) = is_none slot.acknowledged

-- The loop over the ended processes, from an index.
unfoldable pub evict_from :
    RetentionPolicy → Option ℕ → ℕ → ℕ → ℕ → List String → Map String Slot → Map String Slot
evict_from policy keep now over index [] m = m
evict_from policy keep now over index (id ∷ ids) m =
    evict_from policy keep now over (suc index) ids (
      if leb over index && leb (now - completed (get id m)) policy.ttl
      then m
      else evict_slot keep id m)

abbrev pub is_stale : RetentionPolicy → ℕ → Slot → Bool
is_stale policy now slot =
    slot.released && elim slot.acknowledged [ none ↦ false | some at ↦ ltb policy.ttl (now - at) ]

-- The first ids are removed.
unfoldable pub remove_first : ℕ → List String → Map String Slot → Map String Slot
remove_first n [] m = m
remove_first n (id ∷ ids) m =
    let rest = remove_first (n - 1) ids (remove id m) in if ltb 0 n then rest else m

abbrev pub evict_released : RetentionPolicy → ℕ → Option ℕ → Map String Slot → Map String Slot
evict_released policy now none m = m
evict_released policy now (some keep) m =
    let fresh = retain (λ s. not (is_stale policy now s)) m in
    if leb (length (ended_ids true fresh)) keep
    then fresh
    else remove_first (length (ended_ids true fresh) - keep) (ended_ids true fresh) fresh

unfoldable pub evict_completed : ℕ → Runner → Runner
evict_completed now r = record r {
  inner = evict_released r.retention now r.memory.keep (
      evict_from r.retention r.memory.keep now
        (length (ended_ids false r.inner) - r.retention.max_completed) 0 (ended_ids false r.inner)
        r.inner);
}

abbrev pub is_reserved : String → List String → Bool
is_reserved id ids = any (λ i. i == id) ids

abbrev pub in_use : String → ErrorBody
in_use id = new ErrorCode.invalid_command ("process_id `" ++ (id ++ "` is already in use"))

abbrev pub limit_reached : ErrorBody
limit_reached = new ErrorCode.workspace_busy "live process limit reached"

abbrev pub occupied : Runner → ℕ
occupied r = live_count r.inner + length r.reserved

abbrev pub reserve_in : String → Runner → Runner × Result (Unit {0})
reserve_in id r =
    if is_reserved id r.reserved
    then (r, err (in_use id))
    else if leb r.limit (occupied r)
    then (r, err limit_reached)
    else (record r { reserved = id ∷ r.reserved }, ok tt)

unfoldable pub reserve_slot : ℕ → String → Runner → Runner × Result (Unit {0})
unfolding evict_completed
reserve_slot now id r = reserve_in id (evict_completed now r)

unfoldable pub occupied_slots : ℕ → Runner → Runner × ℕ
unfolding evict_completed
occupied_slots now r = (evict_completed now r, occupied (evict_completed now r))

-- `SlotReservation` is dropped.
unfoldable pub free_reservation : String → Runner → Runner
free_reservation id r = record r { reserved = select (λ i. not (i == id)) r.reserved }

abbrev pub known_as : Received → Option Received → Received
known_as executed _ = executed
known_as refused none = refused
known_as refused (some known) = known

unfoldable pub remember : String → Received → Runner → Runner
remember id received r = if is_none r.memory.keep then r else record r {
  memory = record r.memory {
    received = insert id (known_as received (get id r.memory.received)) r.memory.received;
  };
}

unfoldable pub keep_until_acknowledged : ℕ → Runner → Runner
keep_until_acknowledged keep r = record r {
  memory = record r.memory { keep = some (if ltb keep 1 then 1 else keep) };
}

unfoldable pub note_received : String → Runner → Runner
unfolding remember
note_received id r = remember id refused r

-- `fill`: the reservation is dropped once the process holds the slot.
unfoldable pub fill : ℕ → String → Slot → Runner → Runner
unfolding evict_completed free_reservation remember
fill now id slot r =
    let evicted = evict_completed now r in
    remember id executed
      (free_reservation id (record evicted { inner = insert id slot evicted.inner }))

abbrev pub recalled : Option Received → Recalled
recalled none = not_received
recalled (some executed) = dropped
recalled (some refused) = Recalled.refused

unfoldable pub recall : (ℤ → ProcessSignal) → ℕ → String → Runner → Runner × Recalled
unfolding evict_completed
recall process_signal now id r =
    let evicted = evict_completed now r in
    (
      evicted,
      elim (get id evicted.inner) [
        | some slot ↦
            held slot.workspace_id (slot_status process_signal id slot.lifecycle slot.output)
        | none ↦ recalled (get id evicted.memory.received)
      ],
    )

abbrev pub may_acknowledge : Slot → Bool
may_acknowledge slot = is_none slot.acknowledged && is_some slot.completed_at

unfoldable pub acknowledge_all : ℕ → List String → Map String Slot → Map String Slot
acknowledge_all now [] m = m
acknowledge_all now (id ∷ ids) m =
    acknowledge_all now ids
      (update id may_acknowledge (λ s. record s { acknowledged = some now }) m)

unfoldable pub acknowledge : ℕ → List String → Runner → Runner
unfolding evict_completed acknowledge_all
acknowledge now ids r = evict_completed now (record r { inner = acknowledge_all now ids r.inner })
