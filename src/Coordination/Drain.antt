-- ===== src/Coordination/Drain.antt =====
-- crates/store/src/coord.rs: what is left to do for a work that `finish_work` does not close.
use code_space.Prelude.{
  ℕ, suc, String, ◌≡◌, ◌⊎◌, refl, sym, ap, subst, ◌∙◌, true, false, some, inl, inr, arith, ==_iff,
  ==_refl, string_keyed, option_keyed, ltb, ◌&&◌,
}
use code_space.Domain.Error.{ok, is_ok}
use code_space.Map.{get, update, get-update_row}
use code_space.Coordination.Types.{
  WorkState, closing, DeliveryPolicy, next_checkpoint, after_current_work, SteerOutcome, WorkRow,
  IntentRow, Store, is_open, claimable_in, ClaimedIntent,
}
use code_space.Coordination.Queries.{
  count_state, count_delivery, is_claimed, is_of, is_delivered, delivery_beq,
}
use code_space.Coordination.Intents.{always, bump_revision, complete_intent}
use code_space.Coordination.Works.{
  finish_open, finish_work, close_later, claim_next, claimed_intent,
}
use code_space.Coordination.Claims.{IsWaiting, claim_next_least}
use code_space.Coordination.Counts.{count-some}
use code_space.Coordination.Finish.{closes}

-- What stands in the way of closing.
finish_open-waits :
    (work_id : String) (st : WorkState) (a b c now : ℕ) (s : Store)
    → is_open st ≡ true
    → closes (finish_open work_id st a b c now s).1 ≡ false
    → ((ltb 0 a ≡ true) × ((finish_open work_id st a b c now s).0 ≡ s))
      ⊎ (((ltb 0 b ≡ true) × ((finish_open work_id st a b c now s).0 ≡ s))
          ⊎ ((ltb 0 c ≡ true)
              × (((st ≡ closing) × ((finish_open work_id st a b c now s).0 ≡ s))
                  ⊎ ((finish_open work_id st a b c now s).0 ≡ close_later work_id s))))
finish_open-waits work_id st a b c now s o h = ground arith

delivered :
    (work_id : String) (st : WorkState) (d : DeliveryPolicy) (r : IntentRow)
    → claimable_in d st ≡ true
    → is_delivered work_id d r ≡ true
    → IsWaiting work_id st r
delivered work_id st d r c h = record {
  attached = (==_iff r.work_id (some work_id)).0 (ground arith);
  queued = ground arith;
  deliverable = subst (λ e. claimable_in e st ≡ true) (same r.delivery d (ground arith)) c;
}
  where
    same : (a b : DeliveryPolicy) → delivery_beq a b ≡ true → b ≡ a
    same a b e = ground arith

completes :
    (work_id id : String) (outcome : SteerOutcome) (now : ℕ) (s : Store) (r : IntentRow)
    → get id s.intents ≡ some r
    → (is_of work_id r && is_claimed r.state) ≡ true
    → is_ok (complete_intent work_id id outcome now s).1 ≡ true
unfolding complete_intent
completes work_id id outcome now s r found test =
    let mine : is_of work_id r ≡ true = ground arith in
    let taken : is_claimed r.state ≡ true = ground arith in
    rw (complete_intent, found, mine, taken) refl

claims_next :
    (work_id id : String) (now : ℕ) (s : Store) (w : WorkRow) (d : DeliveryPolicy) (r : IntentRow)
    → get work_id s.works ≡ some w
    → claimable_in d w.state ≡ true
    → get id s.intents ≡ some r
    → is_delivered work_id d r ≡ true
    → (c : ClaimedIntent) × ((claim_next work_id now s).1 ≡ ok (some c))
claims_next work_id id now s w d r known c found test =
    let (j, q, g, waits, least, answer, after) =
      claim_next_least work_id id id now s w r known found (delivered work_id w.state d r c test) in
    (claimed_intent j q, answer)

checkpoint_open : (st : WorkState) → is_open st ≡ true → claimable_in next_checkpoint st ≡ true
unfolding claimable_in
checkpoint_open st h = ground arith

after_closing : claimable_in after_current_work closing ≡ true
unfolding claimable_in
after_closing = refl

abbrev closing_row : WorkRow → WorkRow
closing_row w = record w { state = closing; queue_revision = suc w.queue_revision }

get-close_later :
    (work_id : String) (s : Store) (w : WorkRow)
    → get work_id s.works ≡ some w
    → get work_id (close_later work_id s).works ≡ some (closing_row w)
unfolding bump_revision
get-close_later work_id s w known =
    let once : get work_id
          (update work_id always (λ (v : WorkRow). record v { state = closing }) s.works)
        ≡ some (record w { state = closing }) =
      get-update_row work_id work_id always (λ (v : WorkRow). record v { state = closing }) s.works
        w known refl
      ∙ rw (==_refl work_id) refl in
    get-update_row work_id work_id always
      (λ (v : WorkRow). record v { queue_revision = suc v.queue_revision })
      (update work_id always (λ (v : WorkRow). record v { state = closing }) s.works)
      (record w { state = closing }) once refl
    ∙ rw (==_refl work_id) refl

-- While `finish_work` does not close an open work, there is progress to be made: an intent of the work
-- is claimed and can be completed, or the next `claim_next` answers with one.
pub finish_work_progress :
    (work_id : String) (now later : ℕ) (outcome : SteerOutcome) (s : Store) (w : WorkRow)
    → get work_id s.works ≡ some w
    → is_open w.state ≡ true
    → closes (finish_work work_id now s).1 ≡ false
    → ((id : String) × (is_ok
            (complete_intent work_id id outcome later (finish_work work_id now s).0).1
          ≡ true))
      ⊎ ((c : ClaimedIntent) × ((claim_next work_id later (finish_work work_id now s).0).1
            ≡ ok (some c)))
unfolding finish_work bump_revision
finish_work_progress work_id now later outcome s w known opened h =
    let a : ℕ = count_state is_claimed work_id s in
    let b : ℕ = count_delivery next_checkpoint work_id s in
    let c : ℕ = count_delivery after_current_work work_id s in
    let done : finish_work work_id now s ≡ finish_open work_id w.state a b c now s =
      rw (finish_work, known, opened) refl in
    elim (finish_open-waits work_id w.state a b c now s opened
      (sym (ap (λ x. closes x.1) done) ∙ h)) [
        | inl (n, same) ↦
            let (id, r, found, test) =
              count-some (λ q. is_of work_id q && is_claimed q.state) s n in
            inl (
              id,
              subst (λ t. is_ok (complete_intent work_id id outcome later t).1 ≡ true)
                  (sym (ap (λ x. x.0) done ∙ same))
                  (completes work_id id outcome later s r found test),
            )
        | inr (inl (n, same)) ↦
            let (id, r, found, test) = count-some (is_delivered work_id next_checkpoint) s n in
            inr (
              answers s (ap (λ x. x.0) done ∙ same) (
                claims_next work_id id later s w next_checkpoint r known
                  (checkpoint_open w.state opened) found test))
        | inr (inr (n, inl (e, same))) ↦
            let (id, r, found, test) = count-some (is_delivered work_id after_current_work) s n in
            inr (
              answers s (ap (λ x. x.0) done ∙ same) (
                claims_next work_id id later s w after_current_work r known (rw e after_closing)
                  found test))
        | inr (inr (n, inr same)) ↦
            let (id, r, found, test) = count-some (is_delivered work_id after_current_work) s n in
            inr (
              answers (close_later work_id s) (ap (λ x. x.0) done ∙ same) (
                claims_next work_id id later (close_later work_id s) (closing_row w)
                  after_current_work r (get-close_later work_id s w known) after_closing found
                  test))
      ]
  where
    answers :
        (t : Store)
        → (finish_work work_id now s).0 ≡ t
        → (c : ClaimedIntent) × ((claim_next work_id later t).1 ≡ ok (some c))
        → (c : ClaimedIntent) × ((claim_next work_id later (finish_work work_id now s).0).1
            ≡ ok (some c))
    answers t e (c, h) = (c, ap (λ x. (claim_next work_id later x).1) e ∙ h)
