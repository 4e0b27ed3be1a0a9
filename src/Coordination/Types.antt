-- ===== src/Coordination/Types.antt =====
-- crates/domain/src/work.rs and intent.rs: works and the user's intents for them; and the two tables
-- of crates/store/src/lib.rs that hold them.
use code_space.Prelude.{ℕ, String, Bool, true, false, Option}
use code_space.Map.{Map}

pub data WorkState : Type 0 where
  active closing closed cancelled : WorkState

pub data IntentState : Type 0 where
  draft queued claimed done blocked cancelled superseded : IntentState

pub data DeliveryPolicy : Type 0 where
  next_checkpoint after_current_work next_work : DeliveryPolicy

pub data IntentKind : Type 0 where
  follow_up note stop_notice : IntentKind

pub data SteerOutcome : Type 0 where
  done blocked : SteerOutcome

pub record Work : Type 0 where
  pub work_id : String
  pub workspace_id : String
  pub title : Option String
  pub state : WorkState
  pub queue_revision : ℕ

pub record UserIntent : Type 0 where
  pub intent_id : String
  pub work_id : Option String
  pub workspace_id : String
  pub position : ℕ
  pub revision : ℕ
  pub kind : IntentKind
  pub delivery : DeliveryPolicy
  pub body : String
  pub state : IntentState

pub record ClaimedIntent : Type 0 where
  pub intent_id : String
  pub revision : ℕ
  pub kind : IntentKind
  pub delivery : DeliveryPolicy
  pub content : String

pub record WorkOpenResult : Type 0 where
  pub work_id : String
  pub workspace_id : String
  pub state : WorkState

pub record SteerStatusResult : Type 0 where
  pub work_id : String
  pub state : WorkState
  pub queued : ℕ
  pub claimed : ℕ
  pub claimable_now : ℕ
  pub queue_revision : ℕ

pub record WorkFinishResult : Type 0 where
  pub work_id : String
  pub closed : Bool
  pub reason : Option String
  pub queued : ℕ
  pub state : WorkState

pub record CreateIntent : Type 0 where
  pub body : String
  pub kind : IntentKind
  pub delivery : DeliveryPolicy

-- The rows, without the primary key. An enumeration stands for its name.
pub record WorkRow : Type 0 where
  pub workspace_id : String
  pub title : Option String
  pub state : WorkState
  pub queue_revision : ℕ
  pub created_at : ℕ
  pub closed_at : Option ℕ

pub record IntentRow : Type 0 where
  pub work_id : Option String
  pub workspace_id : String
  pub position : ℕ
  pub revision : ℕ
  pub kind : IntentKind
  pub delivery : DeliveryPolicy
  pub body : String
  pub state : IntentState
  pub created_at : ℕ
  pub updated_at : ℕ
  pub claimed_at : Option ℕ
  pub completed_at : Option ℕ

pub record Store : Type 0 where
  pub works : Map String WorkRow
  pub intents : Map String IntentRow

abbrev pub finish_reason_pending : String
finish_reason_pending = "pending_user_input"

abbrev pub accepts_claims : WorkState → Bool
accepts_claims active = true
accepts_claims closing = true
accepts_claims _ = false

abbrev pub is_open : WorkState → Bool
is_open active = true
is_open closing = true
is_open _ = false

abbrev pub is_editable : IntentState → Bool
is_editable draft = true
is_editable queued = true
is_editable _ = false

-- `DeliveryPolicy::claimable_in`.
unfoldable pub claimable_in : DeliveryPolicy → WorkState → Bool
claimable_in next_checkpoint active = true
claimable_in next_checkpoint closing = true
claimable_in after_current_work closing = true
claimable_in _ _ = false
