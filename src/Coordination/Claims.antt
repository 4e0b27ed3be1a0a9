-- ===== src/Coordination/Claims.antt =====
-- crates/store/src/coord.rs: which intent `claim_next` takes, and when it takes none.
use code_space.Prelude.{
  ℕ, ◌≤◌, String, ◌≡◌, refl, sym, ap, ◌∙◌, Bool, true, false, none, some, inl, inr, arith,
  Bool-cases, Option-cases, ◌==◌, ==_iff, ==_refl, string_keyed, option_keyed, nat_keyed,
  if◌then◌else◌, front, any, front-order_by, any-order_by,
}
use code_space.Domain.Error.{ok}
use code_space.Map.{
  get, keys_where, update, updated, get-update_row, any-keys_where, holds-any-keys_where, holds,
  front-any, any-front,
}
use code_space.Coordination.Types.{
  WorkState, active, closing, closed, IntentState, queued, DeliveryPolicy, next_checkpoint,
  after_current_work, next_work, WorkRow, IntentRow, Store, accepts_claims, claimable_in,
}
use code_space.Coordination.Queries.{
  is_queued, delivery_beq, claimable_deliveries, is_claimable, queue_ids, by_position, position_of,
}
use code_space.Coordination.Intents.{bump_revision}
use code_space.Coordination.Works.{claimed_intent, claimed_row, may_claim, claim_next}

-- The list that the store asks the database for is the test of the domain.
pub deliveries_claimable :
    (d : DeliveryPolicy) (st : WorkState)
    → any (delivery_beq d) (claimable_deliveries st) ≡ claimable_in d st
unfolding any claimable_deliveries claimable_in
deliveries_claimable next_checkpoint active = refl
deliveries_claimable next_checkpoint closing = refl
deliveries_claimable next_checkpoint closed = refl
deliveries_claimable next_checkpoint WorkState.cancelled = refl
deliveries_claimable after_current_work active = refl
deliveries_claimable after_current_work closing = refl
deliveries_claimable after_current_work closed = refl
deliveries_claimable after_current_work WorkState.cancelled = refl
deliveries_claimable next_work active = refl
deliveries_claimable next_work closing = refl
deliveries_claimable next_work closed = refl
deliveries_claimable next_work WorkState.cancelled = refl

pub queued_iff : (st : IntentState) → is_queued st ≡ true → st ≡ queued
queued_iff st h = ground arith

-- An intent that waits for the work in its state.
pub record IsWaiting (work_id : String) (st : WorkState) (r : IntentRow) : Type 0 where
  pub attached : r.work_id ≡ some work_id
  pub queued : r.state ≡ queued
  pub deliverable : claimable_in r.delivery st ≡ true

pub IsWaiting-is_claimable :
    (work_id : String) (st : WorkState) (r : IntentRow)
    → IsWaiting work_id st r
    → is_claimable work_id st r ≡ true
unfolding is_claimable
IsWaiting-is_claimable work_id st r h = ground (
  arith,
  deliveries_claimable r.delivery st,
  ==_iff r.work_id (some work_id),
  h.attached,
  h.queued,
  h.deliverable,
)

pub is_claimable-IsWaiting :
    (work_id : String) (st : WorkState) (r : IntentRow)
    → is_claimable work_id st r ≡ true
    → IsWaiting work_id st r
unfolding is_claimable
is_claimable-IsWaiting work_id st r h = record {
  attached = (==_iff r.work_id (some work_id)).0 (ground arith);
  queued = ground arith;
  deliverable = ground (arith, deliveries_claimable r.delivery st);
}

-- The first of a queue passes the test, and no other that does stands before it.
module _ (p : IntentRow → Bool) (s : Store) where
  by_position_total :
      (a b : String) → by_position s.intents a b ≡ false → by_position s.intents b a ≡ true
  by_position_total a b h = ground arith

  by_position_trans :
      (a b c : String)
      → by_position s.intents a b ≡ true
      → by_position s.intents b c ≡ true
      → by_position s.intents a c ≡ true
  by_position_trans a b c h k = ground arith

  pub front_passes :
      (id : String) → front (queue_ids p s) ≡ some id → holds p (get id s.intents) ≡ true
  unfolding queue_ids
  front_passes id h = holds-any-keys_where p id s.intents (
      sym (any-order_by (by_position s.intents) (λ k. k == id) (keys_where p s.intents))
      ∙ front-any (queue_ids p s) id h)

  front_least :
      (id j : String)
      → front (queue_ids p s) ≡ some id
      → holds p (get j s.intents) ≡ true
      → position_of (get id s.intents) ≤ position_of (get j s.intents)
  unfolding queue_ids
  front_least id j h g =
      let before : by_position s.intents id j ≡ true =
        front-order_by (by_position s.intents) by_position_total by_position_trans id j
          (keys_where p s.intents) h (any-keys_where p j s.intents g) in
      ground arith

  -- A queue is empty when nothing passes.
  pub front-none : (j : String) → front (queue_ids p s) ≡ none → holds p (get j s.intents) ≡ false
  unfolding queue_ids
  front-none j h = elim (Bool-cases (holds p (get j s.intents))) [
    | inr e ↦ e
    | inl e ↦
        let listed : any (λ k. k == j) (keys_where p s.intents) ≡ true =
          any-keys_where p j s.intents e in
        let unlisted : any (λ k. k == j) (queue_ids p s) ≡ false = any-front (queue_ids p s) j h in
        let kept : any (λ k. k == j) (queue_ids p s) ≡ any (λ k. k == j) (keys_where p s.intents) =
          any-order_by (by_position s.intents) (λ k. k == j) (keys_where p s.intents) in
        cc
  ]

-- What is waiting is waiting for an open work.
claimable-accepts :
    (d : DeliveryPolicy) (st : WorkState) → claimable_in d st ≡ true → accepts_claims st ≡ true
unfolding claimable_in
claimable-accepts d st h = ground arith

-- What `claim_next` does with the first of the queue.
claimed_first :
    (work_id id : String) (now : ℕ) (s : Store) (w : WorkRow) (r : IntentRow)
    → get work_id s.works ≡ some w
    → accepts_claims w.state ≡ true
    → front (queue_ids (is_claimable work_id w.state) s) ≡ some id
    → get id s.intents ≡ some r
    → IsWaiting work_id w.state r
    → claim_next work_id now s ≡ (
      bump_revision work_id
          (record s { intents = update id (may_claim r.revision) (claimed_row now) s.intents }),
      ok (some (claimed_intent id r)),
    )
unfolding claim_next updated
claimed_first work_id id now s w r known opened first found waits =
    let test : may_claim r.revision r ≡ true = rw (waits.queued, ==_refl r.revision) refl in
    let changed : updated id (may_claim r.revision) s.intents ≡ true =
      rw (updated, found, test) refl in
    rw (claim_next, known, opened, first, found, changed) refl

-- The first of a queue is a row, and is claimed.
pub claim_front :
    (work_id id : String) (now : ℕ) (s : Store) (w : WorkRow)
    → get work_id s.works ≡ some w
    → accepts_claims w.state ≡ true
    → front (queue_ids (is_claimable work_id w.state) s) ≡ some id
    → (r : IntentRow) × (get id s.intents ≡ some r)
      × IsWaiting work_id w.state r
      × (claim_next work_id now s ≡ (
        bump_revision work_id
            (record s { intents = update id (may_claim r.revision) (claimed_row now) s.intents }),
        ok (some (claimed_intent id r)),
      ))
claim_front work_id id now s w known opened f =
    let p : IntentRow → Bool = is_claimable work_id w.state in
    let taken : holds p (get id s.intents) ≡ true = front_passes p s id f in
    elim (Option-cases (get id s.intents)) [
      | inl g ↦ let fails : holds p (get id s.intents) ≡ false = rw g refl in cc
      | inr (r, g) ↦
          let ready : IsWaiting work_id w.state r =
            is_claimable-IsWaiting work_id w.state r (sym (ap (λ o. holds p o) g) ∙ taken) in
          (r, g, ready, claimed_first work_id id now s w r known opened f g ready)
    ]

-- While an intent waits for an open work, `claim_next` answers with an intent that waits for it too,
-- at a position no greater, and marks it claimed at the time of the call; every other intent is as
-- before.
pub claim_next_least :
    (work_id j k : String) (now : ℕ) (s : Store) (w : WorkRow) (q : IntentRow)
    → get work_id s.works ≡ some w
    → get j s.intents ≡ some q
    → IsWaiting work_id w.state q
    → (id : String) × (r : IntentRow) × (get id s.intents ≡ some r)
      × IsWaiting work_id w.state r
      × (r.position ≤ q.position)
      × ((claim_next work_id now s).1 ≡ ok (some (claimed_intent id r)))
      × (get k (claim_next work_id now s).0.intents
          ≡ (if id == k then some (claimed_row now r) else get k s.intents))
unfolding bump_revision
claim_next_least work_id j k now s w q known there waits =
    let p : IntentRow → Bool = is_claimable work_id w.state in
    let passes : holds p (get j s.intents) ≡ true =
      ap (λ o. holds p o) there ∙ IsWaiting-is_claimable work_id w.state q waits in
    elim (Option-cases (front (queue_ids p s))) [
      | inl f ↦ let fails : holds p (get j s.intents) ≡ false = front-none p s j f in cc
      | inr (id, f) ↦
          let (r, g, ready, done) =
            claim_front work_id id now s w known
              (claimable-accepts q.delivery w.state waits.deliverable) f in
          let test : may_claim r.revision r ≡ true = rw (ready.queued, ==_refl r.revision) refl in
          let least : position_of (get id s.intents) ≤ position_of (get j s.intents) =
            front_least p s id j f passes in
          (
            id,
            r,
            g,
            ready,
            ground (arith, ap position_of g, ap position_of there, least),
            ap (λ x. x.1) done,
            ap (λ x. get k x.0.intents) done
                ∙ get-update_row id k (may_claim r.revision) (claimed_row now) s.intents r g test,
          )
    ]
