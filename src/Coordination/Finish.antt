-- ===== src/Coordination/Finish.antt =====
-- crates/store/src/coord.rs: when `finish_work` closes a work, and what is done otherwise.
use mathlib.Core.Option
use code_space.Prelude.{
  ℕ, suc, String, ◌≡◌, ◌⊎◌, refl, sym, ap, ◌∙◌, Bool, true, false, none, some, inl, inr, arith,
  Bool-cases, Option-cases, ==_iff, ==_refl, string_keyed, option_keyed, ltb, ◌&&◌,
}
use code_space.Domain.Error.{Result, ok, err}
use code_space.Map.{get, get-update_row, get-map_values}
use code_space.Coordination.Types.{
  WorkState, closed, IntentState, draft, queued, DeliveryPolicy, next_checkpoint,
  after_current_work, next_work, WorkRow, IntentRow, Store, WorkFinishResult, is_open, is_editable,
}
use code_space.Coordination.Queries.{
  count_state, count_delivery, is_claimed, is_queued, is_of, is_delivered, delivery_beq,
}
use code_space.Coordination.Intents.{always}
use code_space.Coordination.Works.{detach, finish_open, finish_work, close_work}
use code_space.Coordination.Counts.{Fits, count_zero}

abbrev pub is_settled : IntentState → Bool
is_settled IntentState.done = true
is_settled IntentState.blocked = true
is_settled IntentState.cancelled = true
is_settled IntentState.superseded = true
is_settled _ = false

abbrev pub closes : Result WorkFinishResult → Bool
closes (ok res) = res.closed
closes (err e) = false

-- A work that closed: nothing was claimed or queued for it.
finish_open-closes :
    (work_id : String) (st : WorkState) (a b c now : ℕ) (s : Store)
    → closes (finish_open work_id st a b c now s).1 ≡ true
    → (ltb 0 a ≡ false)
      × (ltb 0 b ≡ false)
      × (ltb 0 c ≡ false)
      × ((finish_open work_id st a b c now s).0 ≡ close_work work_id now s)
finish_open-closes work_id st a b c now s h = ground arith

record IsClosing (work_id : String) (now : ℕ) (s t : Store) : Type 0 where
  work : WorkRow
  known : get work_id s.works ≡ some work
  claims : ltb 0 (count_state is_claimed work_id s) ≡ false
  checkpoint : ltb 0 (count_delivery next_checkpoint work_id s) ≡ false
  after : ltb 0 (count_delivery after_current_work work_id s) ≡ false
  result : t ≡ close_work work_id now s

finish-IsClosing :
    (work_id : String) (now : ℕ) (s : Store)
    → closes (finish_work work_id now s).1 ≡ true
    → IsClosing work_id now s (finish_work work_id now s).0
unfolding finish_work
finish-IsClosing work_id now s h = elim (Option-cases (get work_id s.works)) [
  | inl e ↦ let dead : closes (finish_work work_id now s).1 ≡ false = rw (finish_work, e) refl in cc
  | inr (w, e) ↦ elim (Bool-cases (is_open w.state)) [
    | inr b ↦
        let dead : closes (finish_work work_id now s).1 ≡ false = rw (finish_work, e, b) refl in cc
    | inl b ↦
        let same : finish_work work_id now s
            ≡ finish_open work_id w.state (count_state is_claimed work_id s)
                (count_delivery next_checkpoint work_id s)
                (count_delivery after_current_work work_id s) now s =
          rw (finish_work, e, b) refl in
        let (a, c, d, r) =
          finish_open-closes work_id w.state (count_state is_claimed work_id s)
            (count_delivery next_checkpoint work_id s) (count_delivery after_current_work work_id s)
            now s (sym (ap (λ x. closes x.1) same) ∙ h) in
        record {
          work = w;
          known = e;
          claims = a;
          checkpoint = c;
          after = d;
          result = ap (λ x. x.0) same ∙ r;
        }
  ]
]

left_states :
    (st : IntentState) (d : DeliveryPolicy)
    → is_claimed st ≡ false
    → (is_queued st && delivery_beq d next_checkpoint) ≡ false
    → (is_queued st && delivery_beq d after_current_work) ≡ false
    → (is_settled st ≡ true)
      ⊎ ((is_editable st ≡ true) × ((st ≡ draft) ⊎ ((st ≡ queued) × (d ≡ next_work))))
left_states st d h k l = ground arith

-- With less than 2^32 intents in the table, a work that `finish_work` closes had none of its intents
-- claimed; each was settled, or is a draft or is queued for the next work, and such a one stays in
-- the table as it was, attached to no work; and the work is closed afterwards.
pub finish_work_settled :
    (work_id j : String) (now : ℕ) (s : Store) (r : IntentRow)
    → Fits s
    → closes (finish_work work_id now s).1 ≡ true
    → get j s.intents ≡ some r
    → r.work_id ≡ some work_id
    → ((is_settled r.state ≡ true)
        ⊎ (((r.state ≡ draft) ⊎ ((r.state ≡ queued) × (r.delivery ≡ next_work)))
            × (get j (finish_work work_id now s).0.intents
                ≡ some (record r { work_id = none; updated_at = now }))))
      × ((w : WorkRow) × (get work_id (finish_work work_id now s).0.works ≡ some w)
          × (w.state ≡ closed))
unfolding detach
finish_work_settled work_id j now s r fits h found attached =
    let closing : IsClosing work_id now s (finish_work work_id now s).0 =
      finish-IsClosing work_id now s h in
    let mine : is_of work_id r ≡ true = (==_iff r.work_id (some work_id)).1 attached in
    let unclaimed : (is_of work_id r && is_claimed r.state) ≡ false =
      count_zero (λ q. is_of work_id q && is_claimed q.state) j r s fits closing.claims found in
    let checkpoint : is_delivered work_id next_checkpoint r ≡ false =
      count_zero (is_delivered work_id next_checkpoint) j r s fits closing.checkpoint found in
    let after : is_delivered work_id after_current_work r ≡ false =
      count_zero (is_delivered work_id after_current_work) j r s fits closing.after found in
    let left : get j (finish_work work_id now s).0.intents ≡ some (detach work_id now r) =
      ap (λ x. get j x.intents) closing.result
      ∙ get-map_values (detach work_id now) j s.intents
      ∙ ap (λ o. Option.map (detach work_id now) o) found in
    let states : (is_settled r.state ≡ true)
        ⊎ ((is_editable r.state ≡ true)
            × ((r.state ≡ draft) ⊎ ((r.state ≡ queued) × (r.delivery ≡ next_work)))) =
      left_states r.state r.delivery (ground arith) (ground arith) (ground arith) in
    (
      elim states [
        | inl e ↦ inl e
        | inr (e, q) ↦
            let freed : detach work_id now r ≡ record r { work_id = none; updated_at = now } =
              rw (detach, mine, e) refl in
            inr (q, left ∙ ap some freed)
      ],
      (
        record closing.work {
          state = closed;
          closed_at = some now;
          queue_revision = suc closing.work.queue_revision;
        },
        ap (λ x. get work_id x.works) closing.result
            ∙ get-update_row work_id work_id always
                (λ (w : WorkRow). record w {
                  state = closed;
                  closed_at = some now;
                  queue_revision = suc w.queue_revision;
                })
                s.works closing.work closing.known refl
            ∙ rw (==_refl work_id) refl,
        refl,
      ),
    )
