-- ===== src/Coordination/Queries.antt =====
-- crates/store/src/coord.rs: what the methods read of the two tables.
use mathlib.Core.Option
use code_space.Prelude.{
  ℕ, suc, ◌%◌, String, Bool, true, false, not, Option, none, some, List, [], ◌∷◌, ◌==◌,
  string_keyed, nat_keyed, option_keyed, ◌&&◌, ◌||◌, if◌then◌else◌, ltb, leb, length, any, order_by,
  is_none,
}
use code_space.Domain.Error.{ErrorBody, ErrorCode, new, Result, ok, err, ok_or, ◌>>=◌}
use code_space.Domain.Patch.{CoordinationHint}
use code_space.Map.{Map, get, keys_where}
use code_space.Approvals.Types.{quoted}
use code_space.Coordination.Types.{
  WorkState, active, closing, IntentState, draft, queued, claimed, DeliveryPolicy, next_checkpoint,
  after_current_work, next_work, Work, UserIntent, SteerStatusResult, WorkRow, IntentRow, Store,
  is_open,
}

abbrev pub work_missing : String → ErrorBody
work_missing id = new ErrorCode.work_not_found (quoted "unknown work_id `" id)

abbrev pub intent_missing : String → ErrorBody
intent_missing id = new ErrorCode.intent_not_found (quoted "unknown intent_id `" id)

abbrev pub load_work : String → Store → Option WorkRow
load_work id s = get id s.works

abbrev pub load_intent : String → Store → Option IntentRow
load_intent id s = get id s.intents

abbrev pub work_from_row : String → WorkRow → Work
work_from_row id w = record {
  work_id = id;
  workspace_id = w.workspace_id;
  title = w.title;
  state = w.state;
  queue_revision = w.queue_revision;
}

abbrev pub intent_from_row : String → IntentRow → UserIntent
intent_from_row id r = record {
  intent_id = id;
  work_id = r.work_id;
  workspace_id = r.workspace_id;
  position = r.position;
  revision = r.revision;
  kind = r.kind;
  delivery = r.delivery;
  body = r.body;
  state = r.state;
}

-- Rows by their keys, in the order of a query.
rows {ℓ} : {V : Type ℓ} {A : Type 0} → (String → V → A) → Map String V → List String → List A
rows f m [] = []
rows f m (id ∷ ids) =
    let rest = rows f m ids in elim (get id m) [ none ↦ rest | some v ↦ f id v ∷ rest ]

-- The tests of the WHERE clauses.
abbrev pub is_draft : IntentState → Bool
is_draft draft = true
is_draft _ = false

abbrev pub is_queued : IntentState → Bool
is_queued queued = true
is_queued _ = false

abbrev pub is_claimed : IntentState → Bool
is_claimed claimed = true
is_claimed _ = false

abbrev pub delivery_beq : DeliveryPolicy → DeliveryPolicy → Bool
delivery_beq next_checkpoint next_checkpoint = true
delivery_beq after_current_work after_current_work = true
delivery_beq next_work next_work = true
delivery_beq _ _ = false

abbrev pub is_of : String → IntentRow → Bool
is_of work_id r = r.work_id == some work_id

abbrev pub as_u32 : ℕ → ℕ
as_u32 n = n % 4294967296

unfoldable pub claimable_deliveries : WorkState → List DeliveryPolicy
claimable_deliveries active = next_checkpoint ∷ []
claimable_deliveries closing = next_checkpoint ∷ after_current_work ∷ []
claimable_deliveries _ = []

unfoldable pub is_claimable : String → WorkState → IntentRow → Bool
unfolding claimable_deliveries
is_claimable work_id st r =
    is_of work_id r
    && (is_queued r.state && any (delivery_beq r.delivery) (claimable_deliveries st))

abbrev pub is_delivered : String → DeliveryPolicy → IntentRow → Bool
is_delivered work_id d r = is_of work_id r && (is_queued r.state && delivery_beq r.delivery d)

unfoldable pub count : (IntentRow → Bool) → Store → ℕ
count p s = as_u32 (length (keys_where p s.intents))

abbrev pub count_state : (IntentState → Bool) → String → Store → ℕ
count_state p work_id s = count (λ r. is_of work_id r && p r.state) s

abbrev pub count_delivery : DeliveryPolicy → String → Store → ℕ
count_delivery d work_id s = count (is_delivered work_id d) s

abbrev pub count_claimable : String → WorkState → Store → ℕ
count_claimable work_id st s = count (is_claimable work_id st) s

abbrev pub position_of : Option IntentRow → ℕ
position_of none = 0
position_of (some r) = r.position

-- `COALESCE(MAX(position), 0)`.
abbrev pub max_position : Map String IntentRow → List String → ℕ
max_position m [] = 0
max_position m (id ∷ ids) =
    let rest = max_position m ids in
    if ltb rest (position_of (get id m)) then position_of (get id m) else rest

abbrev pub next_position : Option String → String → Store → ℕ
next_position work_id workspace_id s =
    suc (max_position s.intents (keys_where (shares work_id) s.intents))
  where
    shares : Option String → IntentRow → Bool
    shares none r = is_none r.work_id && r.workspace_id == workspace_id
    shares (some id) r = is_of id r

-- `ORDER BY position`.
abbrev pub by_position : Map String IntentRow → String → String → Bool
by_position m a b = leb (position_of (get a m)) (position_of (get b m))

unfoldable pub queue_ids : (IntentRow → Bool) → Store → List String
queue_ids p s = order_by (by_position s.intents) (keys_where p s.intents)

unfoldable pub get_work : String → Store → Result Work
get_work id s = ok_or (Option.map (work_from_row id) (load_work id s)) (work_missing id)

abbrev pub created_at : Option WorkRow → ℕ
created_at none = 0
created_at (some w) = w.created_at

abbrev pub is_listed : Option String → WorkRow → Bool
is_listed none w = true
is_listed (some workspace_id) w = w.workspace_id == workspace_id

unfoldable pub list_works : Option String → Store → List Work
unfolding rows
list_works workspace_id s = rows work_from_row s.works (
    order_by (λ a b. leb (created_at (get b s.works)) (created_at (get a s.works)))
      (keys_where (is_listed workspace_id) s.works))

abbrev pub only {ℓ} : {A : Type ℓ} → List A → Option A
only (x ∷ []) = some x
only _ = none

unfoldable pub unique_open_work : String → Store → Option Work
unfolding rows
unique_open_work workspace_id s = only (
    rows work_from_row s.works (
      order_by (λ a b. leb (created_at (get a s.works)) (created_at (get b s.works)))
        (keys_where (λ w. w.workspace_id == workspace_id && is_open w.state) s.works)))

abbrev pub counts_as_pending : String → IntentRow → Bool
counts_as_pending work_id r =
    is_of work_id r
    && ((is_queued r.state || is_claimed r.state) && not (delivery_beq r.delivery next_work))

unfoldable pub pending_user_items : String → Store → ℕ
pending_user_items work_id s = count (counts_as_pending work_id) s

abbrev pub is_work_not_found : ErrorCode → Bool
is_work_not_found ErrorCode.work_not_found = true
is_work_not_found _ = false

abbrev pub hint_of : Work → Store → CoordinationHint
hint_of w s = record {
  work_id = w.work_id;
  pending_user_items = pending_user_items w.work_id s;
  queue_revision = w.queue_revision;
}

abbrev pub hint_for : String → Store → Result Work → Result (Option CoordinationHint)
hint_for workspace_id s (ok w) =
    ok (if w.workspace_id == workspace_id && is_open w.state then some (hint_of w s) else none)
hint_for workspace_id s (err e) = if is_work_not_found e.code then ok none else err e

unfoldable pub coordination_hint : String → Option String → Store → Result (Option CoordinationHint)
coordination_hint workspace_id none s =
    ok (Option.map (λ w. hint_of w s) (unique_open_work workspace_id s))
coordination_hint workspace_id (some id) s = hint_for workspace_id s (get_work id s)

unfoldable pub steer_status : String → Store → Result SteerStatusResult
steer_status id s = ok_or (load_work id s) (work_missing id) >>= λ w. ok (record {
  work_id = id;
  state = w.state;
  queued = count_state is_queued id s;
  claimed = count_state is_claimed id s;
  claimable_now = count_claimable id w.state s;
  queue_revision = w.queue_revision;
})

-- `CASE state …`, where `draft` has a place only among the drafts.
abbrev pub rank : Bool → IntentState → ℕ
rank include_draft claimed = 0
rank include_draft queued = 1
rank include_draft draft = if include_draft then 2 else 3
rank include_draft _ = 3

abbrev pub rank_of : Bool → Option IntentRow → ℕ
rank_of include_draft none = 3
rank_of include_draft (some r) = rank include_draft r.state

unfoldable pub by_rank : Bool → Map String IntentRow → String → String → Bool
by_rank include_draft m a b =
    ltb (rank_of include_draft (get a m)) (rank_of include_draft (get b m))
    || ((rank_of include_draft (get a m) == rank_of include_draft (get b m)) && by_position m a b)

abbrev pub is_shown : String → String → Bool → IntentRow → Bool
is_shown work_id workspace_id include_draft r =
    (is_of work_id r || (is_none r.work_id && r.workspace_id == workspace_id))
    && (include_draft || not (is_draft r.state))

unfoldable pub list_intents_conn : String → String → Bool → Store → List UserIntent
unfolding rows
list_intents_conn work_id workspace_id include_draft s = rows intent_from_row s.intents (
    order_by (by_rank include_draft s.intents)
      (keys_where (is_shown work_id workspace_id include_draft) s.intents))

unfoldable pub list_intents : String → Bool → Store → Result (List UserIntent)
list_intents id include_draft s = ok_or (load_work id s) (work_missing id) >>= λ w.
    ok (list_intents_conn id w.workspace_id include_draft s)
