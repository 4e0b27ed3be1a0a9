-- ===== src/Occupancy/Invariant/Process.antt =====
-- The methods that turn a resource over to a live process keep every resource at rest:
-- `confirm_process` and `hold_process`.
use code_space.Prelude.{
  ◌≡◌, refl, ap, ◌∙◌, false, Option, none, some, List, [], ◌∷◌, arith, String, ◌==◌, ==_iff,
  ==_refl, if◌then◌else◌, any, Bool-cases, inl, inr, string_keyed, ltb,
}
use mathlib.Core.Option
use code_space.Map.{
  get, get-map_values, map_values, keys_where, any-keys_where, holds-any-keys_where, holds,
}
use code_space.Domain.Error.{ErrorBody}
use code_space.Occupancy.Types.{
  Resource, workspace, LockMode, ExclusiveHolder, request, spawning, ResourceSerializer, Oneshot,
  resource_keyed,
}
use code_space.Occupancy.Serializer.{shell_busy, shared_count, queue_of, grant, fail_waiters}
use code_space.Occupancy.Methods.{
  confirm_process, hold_process, hold_over, hold, fail_all, is_spawning_of, confirmed,
}
use code_space.Occupancy.Slot.{Slot, slot, slot-grant, slot-fail_waiters}
use code_space.Occupancy.Wake.{IsSound, IsSettled}
use code_space.Occupancy.Invariant.{IsWellFormed}

module _ {Tx : Type 0} where
  -- A confirmed slot, with nobody left to wait.
  confirmed-IsSettled :
      (id : String) (r : Resource) (v : Slot Tx)
      → IsSound r v
      → IsSettled r (record v { holder = Option.map (confirmed id) v.holder; queue = [] })
  confirmed-IsSettled id r v h = record {
    sound = record {
      exclusion = ground arith;
      bounded = omega arith;
      barrier = inr refl;
      place = ground arith;
      owners = tt;
    };
    blocked = tt;
  }

  held-IsSettled :
      (id process_id : String) (v : Slot Tx)
      → v.shared ≡ 0
      → IsSettled
          (workspace id)
          (record v { holder = some (ExclusiveHolder.process process_id); queue = [] })
  held-IsSettled id process_id v e = record {
    sound = record {
      exclusion = inr e;
      bounded = omega arith;
      barrier = inr refl;
      place = inr refl;
      owners = tt;
    };
    blocked = tt;
  }

confirmed_other :
    (id : String) (h : Option ExclusiveHolder)
    → holds (is_spawning_of id) h ≡ false
    → Option.map (confirmed id) h ≡ h
confirmed_other id none e = refl
confirmed_other id (some h) e = ground arith

module _ {Tx : Type 0} where
  -- What becomes of a slot with this holder when the process is confirmed.
  abbrev pub turned_over : String → Option ExclusiveHolder → Slot Tx → Slot Tx
  turned_over id none v = v
  turned_over id (some request) v = v
  turned_over id (some (spawning p)) v =
      if p == id then record v { holder = some (ExclusiveHolder.process id); queue = [] } else v
  turned_over id (some (ExclusiveHolder.process p)) v = v

  turned_over_lem :
      (id : String) (h : Option ExclusiveHolder) (v : Slot Tx)
      → (if holds (is_spawning_of id) h
          then record v { holder = Option.map (confirmed id) h; queue = [] }
          else v)
        ≡ turned_over id h v
  turned_over_lem id none v = refl
  turned_over_lem id (some request) v = refl
  turned_over_lem id (some (spawning p)) v = ground arith
  turned_over_lem id (some (ExclusiveHolder.process p)) v = refl

module _ {Tx World : Type 0} where
  listed_holds :
      (id : String) (j : Resource) (s : ResourceSerializer Tx World)
      → any (λ r. r == j) (keys_where (is_spawning_of id) s.exclusive)
        ≡ holds (is_spawning_of id) (get j s.exclusive)
  listed_holds id j s = ground (
    arith,
    any-keys_where (is_spawning_of id) j s.exclusive,
    holds-any-keys_where (is_spawning_of id) j s.exclusive,
  )

  slot-confirmed :
      (id : String) (j : Resource) (s : ResourceSerializer Tx World)
      → slot j (record s { exclusive = map_values (confirmed id) s.exclusive })
        ≡ record (slot j s) { holder = Option.map (confirmed id) (get j s.exclusive) }
  unfolding shared_count queue_of
  slot-confirmed id j s = rw (get-map_values (confirmed id) j s.exclusive)

  unlisted_other :
      (id : String) (j : Resource) (s : ResourceSerializer Tx World)
      → any (λ r. r == j) (keys_where (is_spawning_of id) s.exclusive) ≡ false
      → holds (is_spawning_of id) (get j s.exclusive) ≡ false
  unlisted_other id j s unlisted =
      elim (Bool-cases (holds (is_spawning_of id) (get j s.exclusive))) [
        | inr e ↦ e
        | inl e ↦ absurd (ground (arith, any-keys_where (is_spawning_of id) j s.exclusive e))
      ]

module _ (o : Oneshot) where
  open o use {Tx, World}

  slot-fail_all :
      (rs : List Resource) (e : ErrorBody) (j : Resource) (s : ResourceSerializer Tx World)
      → slot j (fail_all o rs e s)
        ≡ (if any (λ r. r == j) rs then record (slot j s) { queue = [] } else slot j s)
  unfolding fail_all any
  slot-fail_all [] e j s = refl
  slot-fail_all (r ∷ rs) e j s =
      ground (arith, slot-fail_all rs e j (fail_waiters o r e s), slot-fail_waiters o r j e s)

  slot-confirm_listed :
      (id : String) (j : Resource) (s : ResourceSerializer Tx World)
      → slot j (confirm_process o id s) ≡ (
          if any (λ r. r == j) (keys_where (is_spawning_of id) s.exclusive)
          then record (slot j s) {
            holder = Option.map (confirmed id) (get j s.exclusive);
            queue = [];
          }
          else slot j s)
  unfolding confirm_process
  slot-confirm_listed id j s = ground (
    arith,
    slot-fail_all (keys_where (is_spawning_of id) s.exclusive) shell_busy j
        (record s { exclusive = map_values (confirmed id) s.exclusive }),
    slot-confirmed id j s,
    λ (e : any (λ r. r == j) (keys_where (is_spawning_of id) s.exclusive) ≡ false).
        confirmed_other id (get j s.exclusive) (unlisted_other id j s e),
  )

  -- `confirm_process`: a resource that the process spawns in is held by the process now, confirmed,
  -- and nobody waits for it; every other resource is as it was.
  pub slot-confirm_process :
      (id : String) (j : Resource) (s : ResourceSerializer Tx World)
      → slot j (confirm_process o id s) ≡ turned_over id (get j s.exclusive) (slot j s)
  slot-confirm_process id j s =
      slot-confirm_listed id j s
      ∙ ap
          (λ t.
            if t
            then record (slot j s) {
              holder = Option.map (confirmed id) (get j s.exclusive);
              queue = [];
            }
            else slot j s)
          (listed_holds id j s)
      ∙ turned_over_lem id (get j s.exclusive) (slot j s)

  pub confirm_process-IsWellFormed :
      (id : String) (s : ResourceSerializer Tx World)
      → IsWellFormed s
      → IsWellFormed (confirm_process o id s)
  confirm_process-IsWellFormed id s h = record {
    settled = λ j.
        elim (Bool-cases (any (λ r. r == j) (keys_where (is_spawning_of id) s.exclusive))) [
          | inl listed ↦
              rw (slot-confirm_listed id j s, listed)
                (confirmed-IsSettled id j (slot j s) (h.settled j).sound)
          | inr unlisted ↦ rw (slot-confirm_listed id j s, unlisted) (h.settled j)
        ];
  }

  slot-hold :
      (r j : Resource) (process_id : String) (s : ResourceSerializer Tx World)
      → slot j (hold o r process_id s).1 ≡ (
          if r == j
          then record (slot j s) { holder = some (ExclusiveHolder.process process_id); queue = [] }
          else slot j s)
  unfolding hold
  slot-hold r j process_id s = ground (
    arith,
    slot-fail_waiters o r j shell_busy
        (grant r LockMode.exclusive (ExclusiveHolder.process process_id) s),
    slot-grant r j LockMode.exclusive (ExclusiveHolder.process process_id) s,
  )

  hold-IsWellFormed :
      (id process_id : String) (s : ResourceSerializer Tx World)
      → shared_count (workspace id) s ≡ 0
      → IsWellFormed s
      → IsWellFormed (hold o (workspace id) process_id s).1
  hold-IsWellFormed id process_id s e h = record {
    settled = λ j. elim (Bool-cases (workspace id == j)) [
      | inl same ↦ rw (← (==_iff (workspace id) j).0 same) (
          rw (slot-hold (workspace id) (workspace id) process_id s, ==_refl (workspace id))
            (held-IsSettled id process_id (slot (workspace id) s) e))
      | inr apart ↦ rw (slot-hold (workspace id) j process_id s, apart) (h.settled j)
    ];
  }

  hold_over-IsWellFormed :
      (id process_id : String) (h : Option ExclusiveHolder) (s : ResourceSerializer Tx World)
      → get (workspace id) s.exclusive ≡ h
      → IsWellFormed s
      → IsWellFormed (hold_over o (workspace id) process_id h s).1
  unfolding hold_over
  hold_over-IsWellFormed id process_id none s e v =
      elim (Bool-cases (ltb 0 (shared_count (workspace id) s))) [
        | inl shared ↦ rw shared v
        | inr alone ↦ rw alone (hold-IsWellFormed id process_id s (ground arith) v)
      ]
  hold_over-IsWellFormed id process_id (some request) s e v = v
  hold_over-IsWellFormed id process_id (some (spawning p)) s e v =
      let alone : shared_count (workspace id) s ≡ 0 =
        ground (arith, (v.settled (workspace id)).sound.exclusion) in
      elim (Bool-cases (p == process_id)) [
        | inl same ↦ rw same (hold-IsWellFormed id process_id s alone v)
        | inr other ↦ rw other v
      ]
  hold_over-IsWellFormed id process_id (some (ExclusiveHolder.process p)) s e v =
      elim (Bool-cases (p == process_id)) [ inl same ↦ rw same v | inr other ↦ rw other v ]

  pub hold_process-IsWellFormed :
      (id process_id : String) (s : ResourceSerializer Tx World)
      → IsWellFormed s
      → IsWellFormed (hold_process o id process_id s).1
  unfolding hold_process
  hold_process-IsWellFormed id process_id s h =
      hold_over-IsWellFormed id process_id (get (workspace id) s.exclusive) s refl h
