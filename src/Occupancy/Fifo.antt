-- ===== src/Occupancy/Fifo.antt =====
-- The order in which `wake` of crates/store/src/resource.rs serves the waiters, and what it sends.
use code_space.Prelude.{
  ◌≡◌, refl, ◌&&◌, List, [], ◌∷◌, ◌++◌, arith, ==_refl, sym, ap, ◌∙◌, Bool-cases, inl, inr,
}
use code_space.Domain.Error.{ok}
use code_space.Occupancy.Types.{
  Resource, LockMode, ExclusiveHolder, Waiter, ResourceSerializer, Oneshot, is_exclusive,
  resource_keyed,
}
use code_space.Occupancy.Serializer.{
  can_grant, grant, unlock_silent, queue_of, set_queue, tell, deliver, wake_from, wake,
}
use code_space.Occupancy.Slot.{Slot, slot, slot-set_queue}
use code_space.Occupancy.Wake.{deliver_slot-queue, slot-deliver_self}

module _ (o : Oneshot) where
  open o use {Tx, World, send}

  -- `Ok(())` is sent to each of the waiters, in order, and nothing else.
  abbrev pub tell_all : List (Waiter Tx) → World → World
  tell_all [] c = c
  tell_all (w ∷ q) c = tell_all q (send w.tx (ok tt) c).1

  -- The waiters of the queue that were served, and what is left behind them.
  abbrev pub ServesFront :
      Resource → List (Waiter Tx) → World → ResourceSerializer Tx World → Type 0
  ServesFront r q c s =
      (served : List (Waiter Tx)) × (q ≡ served ++ queue_of r s) × (s.channels ≡ tell_all served c)

  channels-grant :
      (r : Resource) (mode : LockMode) (h : ExclusiveHolder) (s : ResourceSerializer Tx World)
      → (grant r mode h s).channels ≡ s.channels
  unfolding grant
  channels-grant r mode h s = ground arith

  channels-unlock_silent :
      (r : Resource) (mode : LockMode) (s : ResourceSerializer Tx World)
      → (unlock_silent r mode s).channels ≡ s.channels
  unfolding unlock_silent
  channels-unlock_silent r mode s = ground arith

  channels-deliver :
      (r : Resource) (w : Waiter Tx) (s : ResourceSerializer Tx World)
      → (deliver o r w s).1.channels ≡ (send w.tx (ok tt) s.channels).1
  unfolding deliver
  channels-deliver r w s =
      let given = grant r w.mode w.owner s in
      let same = channels-grant r w.mode w.owner s in
      elim (Bool-cases (send w.tx (ok tt) given.channels).0) [
        | inl sent ↦ rw sent (rw same)
        | inr gone ↦ rw gone (channels-unlock_silent r w.mode (tell o w given).1 ∙ rw same refl)
      ]

  queue_of-deliver :
      (r : Resource) (w : Waiter Tx) (q : List (Waiter Tx)) (s : ResourceSerializer Tx World)
      → queue_of r (deliver o r w (set_queue r q s)).1 ≡ q
  queue_of-deliver r w q s =
      ap (λ (x : Slot Tx). x.queue) (slot-deliver_self o r w q s)
      ∙ deliver_slot-queue w (deliver o r w (set_queue r q s)).0 (record (slot r s) { queue = q })

  queue_of-set_queue :
      (r : Resource) (q : List (Waiter Tx)) (s : ResourceSerializer Tx World)
      → queue_of r (set_queue r q s) ≡ q
  queue_of-set_queue r q s = ground (arith, ==_refl r, slot-set_queue r r q s)

  wake_from-ServesFront :
      (r : Resource) (q : List (Waiter Tx)) (s : ResourceSerializer Tx World)
      → queue_of r s ≡ q
      → ServesFront r q s.channels (wake_from o r q s)
  unfolding wake_from set_queue
  wake_from-ServesFront r [] s e = ([], sym (queue_of-set_queue r [] s), refl)
  wake_from-ServesFront r (w ∷ q) s e =
      let d = deliver o r w (set_queue r q s) in
      let told = channels-deliver r w (set_queue r q s) in
      let left = queue_of-deliver r w q s in
      let (served, p, t) = wake_from-ServesFront r q d.1 left in
      elim (Bool-cases (can_grant r w.mode s)) [
        | inr stays ↦ rw stays ([], sym e, refl)
        | inl fits ↦ elim (Bool-cases (d.0 && is_exclusive w.mode)) [
          | inl stops ↦ rw (fits, stops) (w ∷ [], ap (◌∷◌ w) (sym left), told)
          | inr goes_on ↦
              rw (fits, goes_on) (w ∷ served, ap (◌∷◌ w) p, t ∙ ap (tell_all served) told)
        ]
      ]

  -- `wake` serves the waiters of its resource from the front, in the order in which they came: the
  -- queue is the served waiters followed by the queue that is left, each served waiter is sent
  -- `Ok(())`, in that order, and nothing else is sent.
  pub wake_fifo :
      (r : Resource) (s : ResourceSerializer Tx World)
      → ServesFront r (queue_of r s) s.channels (wake o r s)
  unfolding wake
  wake_fifo r s = wake_from-ServesFront r (queue_of r s) s refl
