-- ===== src/Coordination/Names.antt =====
-- crates/domain/src/work.rs and intent.rs: the names of the enumerations in the database.
use code_space.Prelude.{String, ◌≡◌, refl, Option, none, some, ◌==◌, string_keyed, if◌then◌else◌}
use code_space.Coordination.Types.{
  WorkState, IntentState, DeliveryPolicy, IntentKind, active, closing, closed, draft, queued,
  claimed, superseded, next_checkpoint, after_current_work, next_work, follow_up, note, stop_notice,
}

-- `as_str` and `parse` of each.
abbrev pub work_state_name : WorkState → String
work_state_name active = "active"
work_state_name closing = "closing"
work_state_name closed = "closed"
work_state_name WorkState.cancelled = "cancelled"

unfoldable pub parse_work_state : String → Option WorkState
parse_work_state raw =
    if raw == "active"
    then some active
    else if raw == "closing"
    then some closing
    else if raw == "closed"
    then some closed
    else if raw == "cancelled"
    then some WorkState.cancelled
    else none

abbrev pub intent_state_name : IntentState → String
intent_state_name draft = "draft"
intent_state_name queued = "queued"
intent_state_name claimed = "claimed"
intent_state_name IntentState.done = "done"
intent_state_name IntentState.blocked = "blocked"
intent_state_name IntentState.cancelled = "cancelled"
intent_state_name superseded = "superseded"

unfoldable pub parse_intent_state : String → Option IntentState
parse_intent_state raw =
    if raw == "draft"
    then some draft
    else if raw == "queued"
    then some queued
    else if raw == "claimed"
    then some claimed
    else if raw == "done"
    then some IntentState.done
    else if raw == "blocked"
    then some IntentState.blocked
    else if raw == "cancelled"
    then some IntentState.cancelled
    else if raw == "superseded"
    then some superseded
    else none

abbrev pub delivery_name : DeliveryPolicy → String
delivery_name next_checkpoint = "next_checkpoint"
delivery_name after_current_work = "after_current_work"
delivery_name next_work = "next_work"

unfoldable pub parse_delivery : String → Option DeliveryPolicy
parse_delivery raw =
    if raw == "next_checkpoint"
    then some next_checkpoint
    else if raw == "after_current_work"
    then some after_current_work
    else if raw == "next_work"
    then some next_work
    else none

abbrev pub kind_name : IntentKind → String
kind_name follow_up = "follow_up"
kind_name note = "note"
kind_name stop_notice = "stop_notice"

unfoldable pub parse_kind : String → Option IntentKind
parse_kind raw =
    if raw == "follow_up"
    then some follow_up
    else if raw == "note"
    then some note
    else if raw == "stop_notice"
    then some stop_notice
    else none

parse_work_state-work_state_name : (s : WorkState) → parse_work_state (work_state_name s) ≡ some s
unfolding parse_work_state
parse_work_state-work_state_name active = refl
parse_work_state-work_state_name closing = refl
parse_work_state-work_state_name closed = refl
parse_work_state-work_state_name WorkState.cancelled = refl

parse_intent_state-intent_state_name :
    (s : IntentState) → parse_intent_state (intent_state_name s) ≡ some s
unfolding parse_intent_state
parse_intent_state-intent_state_name draft = refl
parse_intent_state-intent_state_name queued = refl
parse_intent_state-intent_state_name claimed = refl
parse_intent_state-intent_state_name IntentState.done = refl
parse_intent_state-intent_state_name IntentState.blocked = refl
parse_intent_state-intent_state_name IntentState.cancelled = refl
parse_intent_state-intent_state_name superseded = refl

parse_delivery-delivery_name : (d : DeliveryPolicy) → parse_delivery (delivery_name d) ≡ some d
unfolding parse_delivery
parse_delivery-delivery_name next_checkpoint = refl
parse_delivery-delivery_name after_current_work = refl
parse_delivery-delivery_name next_work = refl

parse_kind-kind_name : (k : IntentKind) → parse_kind (kind_name k) ≡ some k
unfolding parse_kind
parse_kind-kind_name follow_up = refl
parse_kind-kind_name note = refl
parse_kind-kind_name stop_notice = refl

-- The names that the database holds for the four enumerations are read back as what was written:
-- each parse inverts its as_str.
pub names_read_back :
    (w : WorkState) (i : IntentState) (d : DeliveryPolicy) (k : IntentKind)
    → (parse_work_state (work_state_name w) ≡ some w)
      × (parse_intent_state (intent_state_name i) ≡ some i)
      × (parse_delivery (delivery_name d) ≡ some d)
      × (parse_kind (kind_name k) ≡ some k)
names_read_back w i d k = (
  parse_work_state-work_state_name w,
  parse_intent_state-intent_state_name i,
  parse_delivery-delivery_name d,
  parse_kind-kind_name k,
)
