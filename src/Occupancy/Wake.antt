-- ===== src/Occupancy/Wake.antt =====
-- `wake` of crates/store/src/resource.rs: it leaves no waiter at the front that could be granted,
-- and touches no other resource.
use code_space.Prelude.{
  ℕ, ◌≤◌, ◌≡◌, refl, ◌⊎◌, Bool, true, false, ◌&&◌, Option, none, some, List, [], ◌∷◌, arith, ◌==◌,
  ==_refl, if◌then◌else◌, length, All, Bool-cases, sym, ap, subst, ◌∙◌, inl, inr,
}
use code_space.Occupancy.Types.{
  Resource, ExclusiveHolder, request, Waiter, ResourceSerializer, Oneshot, resource_keyed,
  is_workspace, is_exclusive, is_process,
}
use code_space.Occupancy.Serializer.{
  max_waiters_per_resource, can_grant, shared_count, queue_of, set_queue, grant, tell, deliver,
  wake_from, wake,
}
use code_space.Occupancy.Slot.{
  Slot, slot, grant_slot, unlock_slot, open_for, can_grant-slot, slot-grant, slot-unlock_silent,
  slot-set_queue,
}

-- A process, confirmed or not, holds the resource.
abbrev pub is_owned : Option ExclusiveHolder → Bool
is_owned none = false
is_owned (some request) = false
is_owned (some _) = true

abbrev pub MayWait : Resource → ExclusiveHolder → Type 0
MayWait r h =
    (is_process (some h) ≡ false) × ((is_owned (some h) ≡ false) ⊎ (is_workspace r ≡ true))

module _ {Tx : Type 0} where
  -- Nobody at the front of the queue could be granted the resource.
  abbrev pub BlockedBy : Option ExclusiveHolder → ℕ → List (Waiter Tx) → Type 0
  BlockedBy h n [] = Unit
  BlockedBy h n (w ∷ q) = open_for w.mode h n ≡ false

  -- Nobody waits on behalf of a confirmed process, and only a workspace is waited for on behalf
  -- of a process at all.
  abbrev pub AreWaiting : Resource → List (Waiter Tx) → Type 0
  AreWaiting r = All (λ w. MayWait r w.owner)

  -- What holds of a slot at every moment, also between a release and the wake that follows it.
  pub record IsSound (r : Resource) (v : Slot Tx) : Type 0 where
    pub exclusion : (v.holder ≡ none) ⊎ (v.shared ≡ 0)
    pub bounded : length v.queue ≤ max_waiters_per_resource
    pub barrier : (is_process v.holder ≡ false) ⊎ (v.queue ≡ [])
    pub place : (is_owned v.holder ≡ false) ⊎ (is_workspace r ≡ true)
    pub owners : AreWaiting r v.queue

  -- And at rest: no waiter at the front is kept waiting without a reason.
  pub record IsSettled (r : Resource) (v : Slot Tx) : Type 0 where
    pub sound : IsSound r v
    pub blocked : BlockedBy v.holder v.shared v.queue

  -- The slot once the popped waiter was told, or turned out to be gone.
  abbrev pub deliver_slot : Waiter Tx → Bool → Slot Tx → Slot Tx
  deliver_slot w sent v =
      if sent then grant_slot w.mode w.owner v else unlock_slot w.mode (grant_slot w.mode w.owner v)

  -- Serving the front waiter keeps the slot sound.
  deliver_slot-IsSound :
      (r : Resource) (v : Slot Tx) (w : Waiter Tx) (q : List (Waiter Tx)) (sent : Bool)
      → open_for w.mode v.holder v.shared ≡ true
      → IsSound r (record v { queue = w ∷ q })
      → IsSound r (deliver_slot w sent (record v { queue = q }))
  deliver_slot-IsSound r v w q sent c h = ground arith

  pub deliver_slot-queue :
      (w : Waiter Tx) (sent : Bool) (v : Slot Tx) → (deliver_slot w sent v).queue ≡ v.queue
  deliver_slot-queue w sent v = ground arith

  -- An exclusive grant that was received blocks whoever is next.
  deliver_slot-BlockedBy :
      (v : Slot Tx) (w : Waiter Tx) (q : List (Waiter Tx))
      → is_exclusive w.mode ≡ true
      → BlockedBy (deliver_slot w true v).holder (deliver_slot w true v).shared q
  deliver_slot-BlockedBy v w [] e = tt
  deliver_slot-BlockedBy v w (x ∷ q) e = ground arith

module _ (o : Oneshot) where
  open o use {Tx, World}

  pub slot-deliver :
      (r j : Resource) (w : Waiter Tx) (s : ResourceSerializer Tx World)
      → slot j (deliver o r w s).1
        ≡ (if r == j then deliver_slot w (deliver o r w s).0 (slot j s) else slot j s)
  unfolding deliver shared_count queue_of
  slot-deliver r j w s = ground (
    arith,
    slot-grant r j w.mode w.owner s,
    slot-unlock_silent r j w.mode (tell o w (grant r w.mode w.owner s)).1,
  )

  pub slot-wake_from_ne :
      (r j : Resource) (q : List (Waiter Tx)) (s : ResourceSerializer Tx World)
      → (r == j) ≡ false
      → slot j (wake_from o r q s) ≡ slot j s
  unfolding wake_from
  slot-wake_from_ne r j [] s h = ground (arith, slot-set_queue r j [] s)
  slot-wake_from_ne r j (w ∷ q) s h = ground (
    arith,
    slot-set_queue r j q s,
    slot-deliver r j w (set_queue r q s),
    slot-wake_from_ne r j q (deliver o r w (set_queue r q s)).1,
  )

  -- The slot of the resource itself, after its front waiter was served.
  pub slot-deliver_self :
      (r : Resource) (w : Waiter Tx) (q : List (Waiter Tx)) (s : ResourceSerializer Tx World)
      → slot r (deliver o r w (set_queue r q s)).1
        ≡ deliver_slot w (deliver o r w (set_queue r q s)).0 (record (slot r s) { queue = q })
  slot-deliver_self r w q s =
      ground (arith, ==_refl r, slot-deliver r r w (set_queue r q s), slot-set_queue r r q s)

  -- The loop stops at an exclusive grant that was received, and otherwise goes on.
  served-IsSettled :
      (r : Resource) (w : Waiter Tx) (q : List (Waiter Tx)) (v : Slot Tx)
      (d : Bool × ResourceSerializer Tx World) (rest : ResourceSerializer Tx World)
      → slot r d.1 ≡ deliver_slot w d.0 (record v { queue = q })
      → IsSound r (deliver_slot w d.0 (record v { queue = q }))
      → IsSettled r (slot r rest)
      → IsSettled r (slot r (if d.0 && is_exclusive w.mode then d.1 else rest))
  served-IsSettled r w q v (false, s) rest self k m = m
  served-IsSettled r w q v (true, s) rest self k m = elim (Bool-cases (is_exclusive w.mode)) [
    | inr goes_on ↦ rw goes_on m
    | inl stops ↦ rw stops (
        subst (IsSettled r) (sym self) (record {
          sound = k;
          blocked =
              rw (deliver_slot-queue w true (record v { queue = q }))
                (deliver_slot-BlockedBy (record v { queue = q }) w q stops);
        }))
  ]

  wake_from-IsSettled :
      (r : Resource) (q : List (Waiter Tx)) (s : ResourceSerializer Tx World)
      → queue_of r s ≡ q
      → IsSound r (slot r s)
      → IsSettled r (slot r (wake_from o r q s))
  unfolding wake_from
  wake_from-IsSettled r [] s e h =
      rw (slot-set_queue r r [] s, ==_refl r) (record { sound = rw e at h; blocked = tt })
  wake_from-IsSettled r (w ∷ q) s e h =
      let h' : IsSound r (record (slot r s) { queue = w ∷ q }) = rw e at h in
      let d = deliver o r w (set_queue r q s) in
      let self = slot-deliver_self r w q s in
      elim (Bool-cases (can_grant r w.mode s)) [
        | inr stays ↦
            rw stays
              (record { sound = h; blocked = rw e (sym (can_grant-slot r w.mode s) ∙ stays) })
        | inl fits ↦
            let sound : IsSound r (deliver_slot w d.0 (record (slot r s) { queue = q })) =
              deliver_slot-IsSound r (slot r s) w q d.0 (sym (can_grant-slot r w.mode s) ∙ fits)
                h' in
            rw fits (
              served-IsSettled r w q (slot r s) d (wake_from o r q d.1) self sound (
                wake_from-IsSettled r q d.1
                  (ap (λ (x : Slot Tx). x.queue) self ∙ deliver_slot-queue w d.0 _)
                  (rw self sound)))
      ]

  -- After `wake` the resource is at rest, provided its slot was sound.
  pub wake-IsSettled :
      (r : Resource) (s : ResourceSerializer Tx World)
      → IsSound r (slot r s)
      → IsSettled r (slot r (wake o r s))
  unfolding wake
  wake-IsSettled r s h = wake_from-IsSettled r (queue_of r s) s refl h

  pub slot-wake_ne :
      (r j : Resource) (s : ResourceSerializer Tx World)
      → (r == j) ≡ false
      → slot j (wake o r s) ≡ slot j s
  unfolding wake
  slot-wake_ne r j s = slot-wake_from_ne r j (queue_of r s) s
