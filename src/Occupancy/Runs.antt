-- ===== src/Occupancy/Runs.antt =====
-- Sequences of calls to the serializer of crates/store/src/resource.rs. The store holds one mutex
-- around each call, so every interleaving of its users is such a sequence.
use code_space.Prelude.{ℕ, refl, List, [], ◌∷◌, String, arith, inl, inr}
use code_space.Occupancy.Types.{
  Resource, workspace, LockMode, request, spawning, ResourceSerializer, Oneshot,
}
use code_space.Occupancy.Methods.{
  acquire_exclusive_write, acquire_shell_busy, acquire_lock, try_exclusive_write, mark_shell_busy,
  try_lock, release_write, clear_shell, release_process, release_all_processes, unlock,
  cancel_waiter, confirm_process, hold_process,
}
use code_space.Map.{get}
use code_space.Occupancy.Serializer.{shared_count, queue_of}
use code_space.Occupancy.Invariant.{IsWellFormed}
use code_space.Occupancy.Invariant.Acquire.{
  acquire-IsWellFormed, try_exclusive_write-IsWellFormed, mark_shell_busy-IsWellFormed,
  try_lock-IsWellFormed,
}
use code_space.Occupancy.Invariant.Release.{
  release_write-IsWellFormed, clear_shell-IsWellFormed, release_process-IsWellFormed,
  release_all_processes-IsWellFormed, unlock-IsWellFormed, cancel_waiter-IsWellFormed,
}
use code_space.Occupancy.Invariant.Process.{confirm_process-IsWellFormed, hold_process-IsWellFormed}

-- The calls of the store, with their arguments.
pub data Call : Type 0 where
  acquires_write tries_write releases_write clears_shell releases_process : String → Call
  confirms_process : String → Call
  acquires_shell marks_shell holds_process : String → String → Call
  acquires_lock tries_lock unlocks : Resource → LockMode → Call
  cancels_waiter : Resource → ℕ → Call
  releases_all_processes : Call

module _ (o : Oneshot) where
  open o use {Tx, World}

  -- `ResourceSerializer::default()`.
  abbrev pub init : World → ResourceSerializer Tx World
  init c = record { exclusive = []; shared = []; waiters = []; next_waiter = 0; channels = c }

  unfoldable pub step : Call → ResourceSerializer Tx World → ResourceSerializer Tx World
  step (acquires_write id) s = (acquire_exclusive_write o id s).1
  step (acquires_shell id process_id) s = (acquire_shell_busy o id process_id s).1
  step (acquires_lock r mode) s = (acquire_lock o r mode s).1
  step (tries_write id) s = (try_exclusive_write o id s).1
  step (marks_shell id process_id) s = (mark_shell_busy o id process_id s).1
  step (tries_lock r mode) s = (try_lock o r mode s).1
  step (releases_write id) s = release_write o id s
  step (clears_shell id) s = clear_shell o id s
  step (releases_process process_id) s = release_process o process_id s
  step releases_all_processes s = release_all_processes o s
  step (unlocks r mode) s = unlock o r mode s
  step (cancels_waiter r id) s = (cancel_waiter o r id s).1
  step (confirms_process process_id) s = confirm_process o process_id s
  step (holds_process id process_id) s = (hold_process o id process_id s).1

  unfoldable pub run : List Call → ResourceSerializer Tx World → ResourceSerializer Tx World
  unfolding step
  run [] s = s
  run (c ∷ cs) s = run cs (step c s)

  step-IsWellFormed :
      (c : Call) (s : ResourceSerializer Tx World) → IsWellFormed s → IsWellFormed (step c s)
  unfolding step acquire_exclusive_write acquire_shell_busy acquire_lock
  step-IsWellFormed (acquires_write id) s k =
      acquire-IsWellFormed o (workspace id) LockMode.exclusive request s (refl, inl refl) k
  step-IsWellFormed (acquires_shell id process_id) s k =
      acquire-IsWellFormed o (workspace id) LockMode.exclusive (spawning process_id) s
        (refl, inr refl) k
  step-IsWellFormed (acquires_lock r mode) s k =
      acquire-IsWellFormed o r mode request s (refl, inl refl) k
  step-IsWellFormed (tries_write id) s k = try_exclusive_write-IsWellFormed o id s k
  step-IsWellFormed (marks_shell id process_id) s k =
      mark_shell_busy-IsWellFormed o id process_id s k
  step-IsWellFormed (tries_lock r mode) s k = try_lock-IsWellFormed o r mode s k
  step-IsWellFormed (releases_write id) s k = release_write-IsWellFormed o id s k
  step-IsWellFormed (clears_shell id) s k = clear_shell-IsWellFormed o id s k
  step-IsWellFormed (releases_process id) s k = release_process-IsWellFormed o id s k
  step-IsWellFormed releases_all_processes s k = release_all_processes-IsWellFormed o s k
  step-IsWellFormed (unlocks r mode) s k = unlock-IsWellFormed o r mode s k
  step-IsWellFormed (cancels_waiter r id) s k = cancel_waiter-IsWellFormed o r id s k
  step-IsWellFormed (confirms_process id) s k = confirm_process-IsWellFormed o id s k
  step-IsWellFormed (holds_process id process_id) s k =
      hold_process-IsWellFormed o id process_id s k

  run-IsWellFormed :
      (cs : List Call) (s : ResourceSerializer Tx World) → IsWellFormed s → IsWellFormed (run cs s)
  unfolding run
  run-IsWellFormed [] s k = k
  run-IsWellFormed (c ∷ cs) s k = run-IsWellFormed cs (step c s) (step-IsWellFormed c s k)

  init-IsWellFormed : (c : World) → IsWellFormed (init c)
  unfolding shared_count queue_of get
  init-IsWellFormed c = record {
    settled = λ r. record {
      sound = record {
        exclusion = inl refl;
        bounded = omega arith;
        barrier = inl refl;
        place = inl refl;
        owners = tt;
      };
      blocked = tt;
    };
  }

  -- After any calls, from the empty serializer, every resource is at rest: it has no exclusive
  -- holder beside shared ones; at most 64 waiters; none of them if a confirmed process holds it,
  -- and then it is a workspace; and the waiter at the front, if there is one, could not be granted.
  pub run-init-IsWellFormed : (cs : List Call) (c : World) → IsWellFormed (run cs (init c))
  run-init-IsWellFormed cs c = run-IsWellFormed cs (init c) (init-IsWellFormed c)
