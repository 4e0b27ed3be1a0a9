-- ===== src/Coordination/Works.antt =====
-- crates/store/src/coord.rs: the methods of `Store` that change a work: opening, claiming from its
-- queue and finishing.
use code_space.Prelude.{
  ℕ, suc, ◌+◌, String, Bool, true, false, not, Option, none, some, ◌==◌, string_keyed, nat_keyed,
  option_keyed, ◌&&◌, ◌||◌, if◌then◌else◌, ltb, front, is_none,
}
use code_space.Domain.Error.{ErrorBody, ErrorCode, new, ok, err}
use code_space.Map.{get, insert, update, updated, map_values}
use code_space.Coordination.Types.{
  WorkState, active, closing, closed, claimed, DeliveryPolicy, next_checkpoint, after_current_work,
  next_work, ClaimedIntent, WorkOpenResult, WorkFinishResult, WorkRow, IntentRow, Store, is_open,
  is_editable, accepts_claims, finish_reason_pending,
}
use code_space.Coordination.Queries.{
  work_missing, load_work, load_intent, is_queued, is_claimed, is_of, delivery_beq, is_claimable,
  count_state, count_delivery, queue_ids, as_u32,
}
use code_space.Coordination.Intents.{Outcome, always, bump_revision}

abbrev pub unique_work : ErrorBody
unique_work = new ErrorCode.work_not_found "store: UNIQUE constraint failed: works.work_id"

abbrev pub new_work : String → Option String → ℕ → WorkRow
new_work workspace_id title now = record {
  workspace_id = workspace_id;
  title = title;
  state = active;
  queue_revision = 0;
  created_at = now;
  closed_at = none;
}

-- The deferred intents of a workspace go to the next work that is opened.
abbrev pub adopted_delivery : DeliveryPolicy → DeliveryPolicy
adopted_delivery next_work = after_current_work
adopted_delivery d = d

unfoldable pub adopt : String → String → ℕ → IntentRow → IntentRow
adopt work_id workspace_id now r =
    if r.workspace_id == workspace_id && (is_none r.work_id && is_editable r.state)
    then record r {
      work_id = some work_id;
      delivery = adopted_delivery r.delivery;
      updated_at = now;
      revision = suc r.revision;
    }
    else r

unfoldable pub open_work : String → String → Option String → ℕ → Store → Outcome WorkOpenResult
open_work id workspace_id title now s = elim (get id s.works) [
  | some taken ↦ (s, err unique_work)
  | none ↦ (
    bump_revision id (record {
      works = insert id (new_work workspace_id title now) s.works;
      intents = map_values (adopt id workspace_id now) s.intents;
    }),
    ok (record { work_id = id; workspace_id = workspace_id; state = active }),
  )
]

abbrev pub work_closed : String → ErrorBody
work_closed message = new ErrorCode.work_closed message

abbrev pub claimed_intent : String → IntentRow → ClaimedIntent
claimed_intent id r = record {
  intent_id = id;
  revision = r.revision;
  kind = r.kind;
  delivery = r.delivery;
  content = r.body;
}

abbrev pub claimed_row : ℕ → IntentRow → IntentRow
claimed_row now r = record r { state = claimed; claimed_at = some now; updated_at = now }

abbrev pub may_claim : ℕ → IntentRow → Bool
may_claim revision r = is_queued r.state && r.revision == revision

-- The row that was selected is claimed, unless it has changed.
abbrev pub claim : String → ℕ → Store → String → Option IntentRow → Outcome (Option ClaimedIntent)
claim work_id now s id none = (s, ok none)
claim work_id now s id (some r) =
    if updated id (may_claim r.revision) s.intents
    then (
      bump_revision work_id
          (record s { intents = update id (may_claim r.revision) (claimed_row now) s.intents }),
      ok (some (claimed_intent id r)),
    )
    else (s, ok none)

abbrev pub claim_first : String → ℕ → Store → Option String → Outcome (Option ClaimedIntent)
claim_first work_id now s none = (s, ok none)
claim_first work_id now s (some id) = claim work_id now s id (load_intent id s)

unfoldable pub claim_next : String → ℕ → Store → Outcome (Option ClaimedIntent)
claim_next work_id now s = elim (load_work work_id s) [
  | none ↦ (s, err (work_missing work_id))
  | some w ↦
      if not (accepts_claims w.state)
      then (s, err (work_closed "work is closed; open a new work_id"))
      else claim_first work_id now s (front (queue_ids (is_claimable work_id w.state) s))
]

abbrev pub pending_result : String → ℕ → WorkState → WorkFinishResult
pending_result work_id queued st = record {
  work_id = work_id;
  closed = false;
  reason = some finish_reason_pending;
  queued = queued;
  state = st;
}

abbrev pub closed_result : String → WorkFinishResult
closed_result work_id = record {
  work_id = work_id;
  closed = true;
  reason = none;
  queued = 0;
  state = closed;
}

abbrev pub still_active : WorkState → Bool
still_active active = true
still_active _ = false

-- Drafts and queued intents outlive their work, as do those meant for the next.
unfoldable pub detach : String → ℕ → IntentRow → IntentRow
detach work_id now r =
    if is_of work_id r && (is_editable r.state || delivery_beq r.delivery next_work)
    then record r { work_id = none; updated_at = now }
    else r

abbrev pub close_work : String → ℕ → Store → Store
close_work work_id now s = record {
  works =
      update work_id always
        (λ (w : WorkRow). record w {
          state = closed;
          closed_at = some now;
          queue_revision = suc w.queue_revision;
        })
        s.works;
  intents = map_values (detach work_id now) s.intents;
}

abbrev pub close_later : String → Store → Store
close_later work_id s = bump_revision work_id (record s {
  works = update work_id always (λ (w : WorkRow). record w { state = closing }) s.works;
})

-- What `finish_work` does with an open work, by the numbers of intents that are claimed, queued for
-- the next checkpoint, and queued for after the work.
abbrev pub finish_open : String → WorkState → ℕ → ℕ → ℕ → ℕ → Store → Outcome WorkFinishResult
finish_open work_id st claims checkpoint after now s =
    if ltb 0 claims || ltb 0 checkpoint
    then (s, ok (pending_result work_id (as_u32 (claims + checkpoint + after)) st))
    else if ltb 0 after
    then (
      if still_active st then close_later work_id s else s,
      ok (pending_result work_id after closing),
    )
    else (close_work work_id now s, ok (closed_result work_id))

unfoldable pub finish_work : String → ℕ → Store → Outcome WorkFinishResult
finish_work work_id now s = elim (load_work work_id s) [
  | none ↦ (s, err (work_missing work_id))
  | some w ↦
      if not (is_open w.state)
      then (s, err (work_closed "work is already closed"))
      else finish_open work_id w.state (count_state is_claimed work_id s)
          (count_delivery next_checkpoint work_id s) (count_delivery after_current_work work_id s)
          now s
]
