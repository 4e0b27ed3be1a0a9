-- ===== src/Occupancy/Tests.antt =====
-- The serializer at concrete inputs, over channels that are kept in a map.
use code_space.Prelude.{
  ℕ, suc, ◌≡◌, ◌≢◌, refl, true, false, Option, none, some, List, [], ◌∷◌, arith, nat_keyed, any,
  select,
}
use code_space.Domain.Error.{Result, ok, err}
use code_space.Map.{Map, get, insert, remove, retain, keys_where, map_values, get-insert}
use code_space.Occupancy.Types.{
  resource_keyed, workspace, LockMode, shared_read, request, ResourceSerializer, Oneshot, busy,
}
use code_space.Occupancy.Serializer.{
  shell_busy, write_lock_held, process_held_busy, busy_body, waiter_count_unlocked, has_waiters,
  has_exclusive_waiter, shared_count, process_held, can_grant, grant, unlock_silent, set_queue,
  queue_of, enqueue, fail_waiters, deliver, wake, wake_from, wake_all,
}
use code_space.Occupancy.Methods.{
  acquire, try_lock, acquire_exclusive_write, acquire_shell_busy, try_exclusive_write,
  mark_shell_busy, hold_process, hold_over, hold, fail_all, is_taken, release_write,
  release_process, release_all_processes, release_matching, confirm_process, cancel_waiter,
  cancel_in, unlock,
}
use code_space.Occupancy.Slot.{slot}
use code_space.Occupancy.Runs.{
  Call, acquires_write, acquires_shell, releases_write, releases_all_processes, confirms_process,
  init, run, run-init-IsWellFormed,
}
use code_space.Occupancy.Fifo.{ServesFront, wake_fifo}
use code_space.Occupancy.Refusals.{process_barrier, release_process_frees, without}
use code_space.Occupancy.Guards.{WaitTicket, drop_ticket, drop_ticket_frees}
use code_space.Occupancy.Invariant.{IsWellFormed}
use code_space.Occupancy.Invariant.Process.{slot-confirm_process, turned_over}

-- All channels: how many there are, and what was sent on each.
record Channels : Type 0 where
  made : ℕ
  sent : Map ℕ (Result (Unit {0}))

abbrev lookup_sent : ℕ → Channels → Option (Result (Unit {0}))
lookup_sent t c = get t c.sent

recv-send_sent : (t : ℕ) (v : Result (Unit {0})) (c : Channels) → get t (insert t v c.sent) ≡ some v
recv-send_sent t v c = ground (arith, get-insert t t v c.sent)

recv-send_other :
    (t u : ℕ) (v : Result (Unit {0})) (c : Channels)
    → t ≢ u
    → get u (insert t v c.sent) ≡ get u c.sent
recv-send_other t u v c h = ground (arith, get-insert t u v c.sent)

-- Receivers that are never gone.
abbrev mailbox : Oneshot
mailbox = record {
  Tx = ℕ;
  World = Channels;
  channel = λ c. (c.made, record c { made = suc c.made });
  send = λ t v c. (true, record c { sent = insert t v c.sent });
  try_recv = lookup_sent;
  recv-send = λ t v c h. recv-send_sent t v c;
  recv-send_ne = recv-send_other;
}

abbrev empty : Channels
empty = record { made = 0; sent = [] }

-- A patch holds the workspace, a command waits to spawn in it, and another patch behind that one.
abbrev contended : List Call
contended = acquires_write "ws" ∷ acquires_shell "ws" "p1" ∷ acquires_write "ws" ∷ []

-- The first patch ends, so the command is granted the workspace; then the processes are released,
-- and the second patch is granted it.
abbrev overtaken : List Call
overtaken =
    acquires_write "ws"
    ∷ acquires_shell "ws" "p1"
    ∷ acquires_write "ws"
    ∷ releases_write "ws"
    ∷ releases_all_processes
    ∷ []

abbrev start : ResourceSerializer ℕ Channels
start = init mailbox empty

-- Opens the run of a test.
ran : List Call → ResourceSerializer ℕ Channels
unfolding run acquire acquire_exclusive_write acquire_shell_busy release_write release_all_processes
    confirm_process release_process release_matching try_exclusive_write mark_shell_busy
    hold_process hold_over hold fail_all is_taken grant unlock_silent set_queue queue_of enqueue
    fail_waiters deliver wake wake_from wake_all process_held process_held_busy busy_body can_grant
    has_waiters has_exclusive_waiter shared_count waiter_count_unlocked get insert remove retain
    keys_where map_values any select cancel_waiter cancel_in unlock
ran cs = run mailbox cs start

overtaken_holder : get (workspace "ws") (ran overtaken).exclusive ≡ some request
unfolding ran
overtaken_holder = refl

-- The command's ticket, told of its grant and not yet polled.
abbrev stale_ticket : WaitTicket ℕ
stale_ticket = record {
  resource = workspace "ws";
  mode = LockMode.exclusive;
  id = 0;
  rx = 0;
  finished = false;
}

-- Its drop frees the workspace under the second patch.
drop_ticket_frees_example :
    get (workspace "ws") (drop_ticket mailbox stale_ticket (ran overtaken)).exclusive ≡ none
unfolding ran
drop_ticket_frees_example =
    drop_ticket_frees mailbox stale_ticket (ran overtaken) refl refl refl refl

run-init-IsWellFormed_example : IsWellFormed (run mailbox overtaken (init mailbox empty))
run-init-IsWellFormed_example = run-init-IsWellFormed mailbox overtaken empty

wake_fifo_example :
    ServesFront mailbox
      (workspace "ws")
      (queue_of (workspace "ws") (ran contended))
      (ran contended).channels
      (wake mailbox (workspace "ws") (ran contended))
wake_fifo_example = wake_fifo mailbox (workspace "ws") (ran contended)

abbrev confirmed_calls : List Call
confirmed_calls = acquires_shell "ws" "p1" ∷ confirms_process "p1" ∷ []

process_barrier_example :
    let s = run mailbox confirmed_calls (init mailbox empty) in
    ((acquire mailbox (workspace "ws") shared_read request s).0 ≡ busy shell_busy)
    × ((try_lock mailbox (workspace "ws") shared_read s).0 ≡ err (busy_body (workspace "ws")))
    × ((try_exclusive_write mailbox "ws" s).0 ≡ err shell_busy)
    × ((mark_shell_busy mailbox "ws" "p2" s).0 ≡ err write_lock_held)
    × ((hold_process mailbox "ws" "p2" s).0 ≡ err write_lock_held)
    × ((hold_process mailbox "ws" "p1" s).0 ≡ ok tt)
unfolding ran
process_barrier_example =
    process_barrier mailbox "ws" "p1" "p2" shared_read request
      (run mailbox confirmed_calls (init mailbox empty))
      (run-init-IsWellFormed mailbox confirmed_calls empty) refl refl

release_process_frees_example :
    slot (workspace "ws") (release_process mailbox "p1" (ran confirmed_calls))
    ≡ record (slot (workspace "ws") (ran confirmed_calls)) {
      holder = without "p1" (get (workspace "ws") (ran confirmed_calls).exclusive);
    }
unfolding ran
release_process_frees_example =
    release_process_frees mailbox "p1" (workspace "ws") (ran confirmed_calls) refl

slot-confirm_process_example :
    slot (workspace "ws") (confirm_process mailbox "p1" (ran (acquires_shell "ws" "p1" ∷ [])))
    ≡ turned_over "p1"
        (get (workspace "ws") (ran (acquires_shell "ws" "p1" ∷ [])).exclusive)
        (slot (workspace "ws") (ran (acquires_shell "ws" "p1" ∷ [])))
slot-confirm_process_example =
    slot-confirm_process mailbox "p1" (workspace "ws") (ran (acquires_shell "ws" "p1" ∷ []))
