-- ===== src/Occupancy/Guards.antt =====
-- The guards of crates/store/src/lib.rs and crates/store/src/resource.rs, whose drop gives the
-- resource back: `WriteGuard`, `ResourceGuard`, `ProcessReservation` and `WaitTicket`.
use code_space.Prelude.{
  ℕ, ◌≡◌, Bool, true, false, Option, none, some, [], String, ==_refl, if◌then◌else◌, ap, ◌∙◌,
}
use code_space.Domain.Error.{ErrorBody, new, ErrorCode, Result, ok, err}
use code_space.Map.{get}
use code_space.Occupancy.Types.{
  Resource, LockMode, ResourceSerializer, AcquireOutcome, granted, busy, waiting, Oneshot,
  resource_keyed,
}
use code_space.Occupancy.Serializer.{queue_of, unlock_silent}
use code_space.Occupancy.Methods.{release_process, confirm_process, unlock, cancel_waiter}
use code_space.Occupancy.Slot.{Slot, slot, slot-unlock_silent}
use code_space.Occupancy.Refusals.{slot-wake_idle}

pub data ReservationPhase : Type 0 where
  pre_dispatch dispatching confirmed aborted : ReservationPhase

pub record ProcessReservation : Type 0 where
  pub process_id : String
  pub phase : ReservationPhase

pub record WaitTicket (Tx : Type 0) : Type 0 where
  pub resource : Resource
  pub mode : LockMode
  pub id : ℕ
  pub rx : Tx
  pub finished : Bool

abbrev pub waiter_closed_error : ErrorBody
waiter_closed_error = new ErrorCode.internal "resource waiter closed"

armed : ReservationPhase → ReservationPhase
armed pre_dispatch = dispatching
armed phase = phase

unfoldable pub arm_dispatch : ProcessReservation → ProcessReservation
unfolding armed
arm_dispatch p = record p { phase = armed p.phase }

module _ (o : Oneshot) where
  open o use {Tx, World, try_recv}

  drop_in : ReservationPhase → String → ResourceSerializer Tx World → ResourceSerializer Tx World
  drop_in pre_dispatch id s = release_process o id s
  drop_in _ id s = s

  -- `Drop for ProcessReservation`.
  unfoldable pub drop_reservation :
      ProcessReservation → ResourceSerializer Tx World → ResourceSerializer Tx World
  unfolding drop_in
  drop_reservation p s = drop_in p.phase p.process_id s

  -- `confirm` and `abort` consume the reservation, so its drop follows.
  unfoldable pub confirm :
      ProcessReservation → ResourceSerializer Tx World → ResourceSerializer Tx World
  unfolding drop_reservation
  confirm p s = drop_reservation (record p { phase = confirmed }) (confirm_process o p.process_id s)

  unfoldable pub abort :
      ProcessReservation → ResourceSerializer Tx World → ResourceSerializer Tx World
  unfolding drop_reservation
  abort p s = drop_reservation (record p { phase = aborted }) (release_process o p.process_id s)

  -- What `wait` returns once the channel has a value; without one the sender is gone.
  unfoldable pub received : Option (Result (Unit {0})) → Result (Unit {0})
  received (some v) = v
  received none = err waiter_closed_error

  -- `complete_acquire`: the outcome of an acquire at once, or the ticket to wait on.
  unfoldable pub complete_acquire :
      Resource → LockMode → AcquireOutcome Tx → Result (Option (WaitTicket Tx))
  complete_acquire r mode granted = ok none
  complete_acquire r mode (busy e) = err e
  complete_acquire r mode (waiting id rx) =
      ok (some (record { resource = r; mode = mode; id = id; rx = rx; finished = false }))

  -- A grant that reached the channel but not its receiver.
  abbrev pub is_grant : Option (Result (Unit {0})) → Bool
  is_grant (some (ok _)) = true
  is_grant _ = false

  -- `Drop for WaitTicket`.
  unfoldable pub drop_ticket :
      WaitTicket Tx → ResourceSerializer Tx World → ResourceSerializer Tx World
  drop_ticket t s =
      let cancelled = cancel_waiter o t.resource t.id s in
      if t.finished
      then s
      else if cancelled.0
      then cancelled.1
      else if is_grant (try_recv t.rx cancelled.1.channels)
      then unlock o t.resource t.mode cancelled.1
      else cancelled.1

  cancel_waiter_idle :
      (r : Resource) (id : ℕ) (s : ResourceSerializer Tx World)
      → get r s.waiters ≡ none
      → cancel_waiter o r id s ≡ (false, s)
  unfolding cancel_waiter
  cancel_waiter_idle r id s e = rw (e, cancel_waiter)

  -- A ticket that was granted the resource and is dropped before it was told frees the resource
  -- whoever holds it then, when nobody waits: the drop does not check that the grant is still its
  -- own.
  pub drop_ticket_frees :
      (t : WaitTicket Tx) (s : ResourceSerializer Tx World)
      → t.finished ≡ false
      → t.mode ≡ LockMode.exclusive
      → get t.resource s.waiters ≡ none
      → try_recv t.rx s.channels ≡ some (ok tt)
      → get t.resource (drop_ticket t s).exclusive ≡ none
  unfolding drop_ticket unlock queue_of
  drop_ticket_frees t s f m e g =
      let u = unlock_silent t.resource LockMode.exclusive s in
      let step : slot t.resource u ≡ record (slot t.resource s) { holder = none } =
        slot-unlock_silent t.resource t.resource LockMode.exclusive s ∙ rw (==_refl t.resource) in
      let idle : queue_of t.resource u ≡ [] =
        ap (λ (x : Slot Tx). x.queue) step ∙ rw (e, queue_of) in
      rw (f, cancel_waiter_idle t.resource t.id s e, g, m)
        (ap (λ (x : Slot Tx). x.holder) (slot-wake_idle o t.resource t.resource u idle ∙ step))
