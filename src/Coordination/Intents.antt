-- ===== src/Coordination/Intents.antt =====
-- crates/store/src/coord.rs: the methods of `Store` that change one intent, or the order of a queue.
-- The time, and the id that a method mints, are arguments.
use Prim.Native.String.{◌++◌}
use code_space.Prelude.{
  ℕ, suc, String, Bool, true, not, Option, none, some, List, [], ◌∷◌, ◌==◌, string_keyed, nat_keyed,
  option_keyed, ◌&&◌, if◌then◌else◌, length, any, all,
}
use code_space.Domain.Error.{ErrorBody, ErrorCode, new, Result, ok, err}
use code_space.Map.{get, insert, update, updated}
use code_space.Coordination.Types.{
  IntentState, draft, queued, claimed, DeliveryPolicy, next_checkpoint, next_work, stop_notice,
  SteerOutcome, UserIntent, CreateIntent, WorkRow, IntentRow, Store, is_open, is_editable,
}
use code_space.Coordination.Queries.{
  work_missing, intent_missing, load_work, load_intent, intent_from_row, is_draft, is_queued,
  is_claimed, is_of, next_position, queue_ids, list_intents_conn,
}

abbrev pub Outcome : Type 0 → Type 0
Outcome A = Store × Result A

-- Every row of a table has its test passed.
abbrev pub always {ℓ} : {A : Type ℓ} → A → Bool
always a = true

unfoldable pub bump_revision : String → Store → Store
bump_revision id s = record s {
  works =
      update id always (λ (w : WorkRow). record w { queue_revision = suc w.queue_revision })
        s.works;
}

-- The revision of the work that an intent is attached to.
abbrev pub bump_of : Option String → Store → Store
bump_of none s = s
bump_of (some work_id) s = bump_revision work_id s

abbrev pub not_editable : String → ErrorBody
not_editable message = new ErrorCode.intent_not_editable message

abbrev pub already_claimed : ErrorBody
already_claimed =
    new ErrorCode.intent_already_claimed "this intent was already read; add a new item"

abbrev pub revision_conflict : ErrorBody
revision_conflict = new ErrorCode.intent_revision_conflict "intent revision does not match"

abbrev pub unique_intent : ErrorBody
unique_intent = new ErrorCode.work_not_found "store: UNIQUE constraint failed: intents.intent_id"

-- The row that was written, read back.
abbrev pub read_back : String → Store → Store → Outcome UserIntent
read_back id before s = elim (load_intent id s) [
  | none ↦ (before, err (intent_missing id))
  | some r ↦ (s, ok (intent_from_row id r))
]

-- The INSERT of an intent and what follows it.
abbrev pub insert_intent : String → IntentRow → Store → Outcome UserIntent
insert_intent id r s = elim (get id s.intents) [
  | some taken ↦ (s, err unique_intent)
  | none ↦ read_back id s (bump_of r.work_id (record s { intents = insert id r s.intents }))
]

abbrev pub stored_work_id : String → WorkRow → Option String
stored_work_id work_id w = if is_open w.state then some work_id else none

abbrev pub draft_row : String → WorkRow → CreateIntent → ℕ → Store → IntentRow
draft_row work_id w create now s = record {
  work_id = stored_work_id work_id w;
  workspace_id = w.workspace_id;
  position = next_position (stored_work_id work_id w) w.workspace_id s;
  revision = 1;
  kind = create.kind;
  delivery = if is_open w.state then create.delivery else next_work;
  body = create.body;
  state = draft;
  created_at = now;
  updated_at = now;
  claimed_at = none;
  completed_at = none;
}

unfoldable pub create_draft : String → String → CreateIntent → ℕ → Store → Outcome UserIntent
create_draft id work_id create now s = elim (load_work work_id s) [
  | none ↦ (s, err (work_missing work_id))
  | some w ↦ insert_intent id (draft_row work_id w create now s) s
]

-- `is_blank reason` is `reason.trim().is_empty()`.
abbrev pub stop_body : (String → Bool) → String → String
stop_body is_blank reason =
    if is_blank reason
    then "user stopped current execution"
    else "user stopped current execution: " ++ reason

abbrev pub stop_row : (String → Bool) → String → WorkRow → String → ℕ → Store → IntentRow
stop_row is_blank work_id w reason now s = record {
  work_id = stored_work_id work_id w;
  workspace_id = w.workspace_id;
  position = next_position (stored_work_id work_id w) w.workspace_id s;
  revision = 1;
  kind = stop_notice;
  delivery = next_checkpoint;
  body = stop_body is_blank reason;
  state = if is_open w.state then claimed else queued;
  created_at = now;
  updated_at = now;
  claimed_at = if is_open w.state then some now else none;
  completed_at = none;
}

unfoldable pub insert_stop_notice :
    (String → Bool) → String → String → String → ℕ → Store → Outcome UserIntent
insert_stop_notice is_blank id work_id reason now s = elim (load_work work_id s) [
  | none ↦ (s, err (work_missing work_id))
  | some w ↦ insert_intent id (stop_row is_blank work_id w reason now s) s
]

-- An UPDATE of one intent that passes the test; none is `n != 1`.
abbrev pub update_intent :
    String
    → Option String
    → (IntentRow → Bool)
    → (IntentRow → IntentRow)
    → Store
    → Outcome UserIntent
update_intent id work_id p f s =
    if updated id p s.intents
    then read_back id s (bump_of work_id (record s { intents = update id p f s.intents }))
    else (s, err already_claimed)

abbrev pub may_edit : ℕ → IntentRow → Bool
may_edit revision r = r.revision == revision && is_editable r.state

abbrev pub or_current : Option DeliveryPolicy → DeliveryPolicy → DeliveryPolicy
or_current none d = d
or_current (some e) d = e

abbrev pub edited : String → DeliveryPolicy → ℕ → IntentRow → IntentRow
edited body delivery now r = record r {
  body = body;
  delivery = delivery;
  revision = suc r.revision;
  updated_at = now;
}

unfoldable pub edit_intent :
    String → ℕ → String → Option DeliveryPolicy → ℕ → Store → Outcome UserIntent
edit_intent id revision body delivery now s = elim (load_intent id s) [
  | none ↦ (s, err (intent_missing id))
  | some current ↦
      if is_claimed current.state
      then (s, err already_claimed)
      else if not (is_editable current.state)
      then (s, err (not_editable "only draft and queued intents can be edited"))
      else if not (current.revision == revision)
      then (s, err revision_conflict)
      else update_intent id current.work_id (may_edit revision)
          (edited body (or_current delivery current.delivery) now) s
]

abbrev pub may_queue : ℕ → IntentRow → Bool
may_queue revision r = r.revision == revision && is_draft r.state

abbrev pub queued_row : ℕ → IntentRow → IntentRow
queued_row now r = record r { state = queued; revision = suc r.revision; updated_at = now }

unfoldable pub queue_intent : String → ℕ → ℕ → Store → Outcome UserIntent
queue_intent id revision now s = elim (load_intent id s) [
  | none ↦ (s, err (intent_missing id))
  | some current ↦
      if not (is_draft current.state)
      then (s, err (not_editable "only drafts can be queued"))
      else if not (current.revision == revision)
      then (s, err revision_conflict)
      else update_intent id current.work_id (may_queue revision) (queued_row now) s
]

abbrev pub cancelled_row : ℕ → IntentRow → IntentRow
cancelled_row now r = record r { state = IntentState.cancelled; updated_at = now }

unfoldable pub cancel_intent : String → ℕ → Store → Outcome UserIntent
cancel_intent id now s = elim (load_intent id s) [
  | none ↦ (s, err (intent_missing id))
  | some current ↦
      if not (is_editable current.state)
      then (s, err (not_editable "claimed intents cannot be cancelled; add a new item"))
      else (
        bump_of current.work_id
            (record s { intents = update id always (cancelled_row now) s.intents }),
        ok (intent_from_row id (record current { state = IntentState.cancelled })),
      )
]

abbrev pub outcome_state : SteerOutcome → IntentState
outcome_state SteerOutcome.done = IntentState.done
outcome_state SteerOutcome.blocked = IntentState.blocked

abbrev pub completed_row : SteerOutcome → ℕ → IntentRow → IntentRow
completed_row outcome now r = record r {
  state = outcome_state outcome;
  completed_at = some now;
  updated_at = now;
}

unfoldable pub complete_intent : String → String → SteerOutcome → ℕ → Store → Outcome UserIntent
complete_intent work_id id outcome now s = elim (load_intent id s) [
  | none ↦ (s, err (intent_missing id))
  | some r ↦
      if not (is_of work_id r)
      then (s, err (intent_missing id))
      else if not (is_claimed r.state)
      then (s, err (not_editable "only claimed intents can be completed"))
      else (
        bump_revision work_id
            (record s { intents = update id always (completed_row outcome now) s.intents }),
        ok (intent_from_row id (record r { state = outcome_state outcome })),
      )
]

abbrev pub placed : ℕ → ℕ → IntentRow → IntentRow
placed position now r = record r { position = position; updated_at = now }

-- The loop of `reorder_queued`, from the next position.
unfoldable pub place_all : ℕ → ℕ → List String → Store → Store
place_all next now [] s = s
place_all next now (id ∷ ids) s =
    place_all (suc next) now ids
      (record s { intents = update id (λ r. is_queued r.state) (placed next now) s.intents })

abbrev pub lists_queue : List String → List String → Bool
lists_queue existing ids =
    (length existing == length ids) && all (λ id. any (λ e. e == id) existing) ids

unfoldable pub reorder_queued : String → List String → ℕ → Store → Outcome (List UserIntent)
reorder_queued work_id ids now s = elim (load_work work_id s) [
  | none ↦ (s, err (work_missing work_id))
  | some w ↦
      if lists_queue (queue_ids (λ r. is_of work_id r && is_queued r.state) s) ids
      then (
        bump_revision work_id (place_all 1 now ids s),
        ok (
            list_intents_conn work_id w.workspace_id true
              (bump_revision work_id (place_all 1 now ids s))),
      )
      else (s, err (not_editable "reorder must list exactly the queued intents on this work"))
]
