-- ===== src/Coordination/Progress.antt =====
-- crates/store/src/coord.rs: how an intent and a work can change.
use code_space.Prelude.{
  ◌≤◌, ◌<◌, ◌≡◌, ◌⊎◌, refl, ◌∙◌, true, false, inl, inr, arith, Bool-cases, Star, here, Star-trans,
  Star-keeps,
}
use code_space.Coordination.Types.{
  WorkState, active, closing, closed, IntentState, draft, queued, claimed, WorkRow, IntentRow,
  is_open, is_editable,
}

-- The changes of state of an intent.
pub data IntentEdge : IntentState → IntentState → Type 0 where
  to_queued : IntentEdge draft queued
  draft_cancelled : IntentEdge draft IntentState.cancelled
  queued_cancelled : IntentEdge queued IntentState.cancelled
  to_claimed : IntentEdge queued claimed
  to_done : IntentEdge claimed IntentState.done
  to_blocked : IntentEdge claimed IntentState.blocked

pub data WorkEdge : WorkState → WorkState → Type 0 where
  to_closing : WorkEdge active closing
  to_closed : (a : WorkState) → is_open a ≡ true → WorkEdge a closed

frozen_edge : {a b : IntentState} → IntentEdge a b → is_editable a ≡ false → is_editable b ≡ false
frozen_edge to_queued h = h
frozen_edge draft_cancelled h = refl
frozen_edge queued_cancelled h = refl
frozen_edge to_claimed h = refl
frozen_edge to_done h = refl
frozen_edge to_blocked h = refl

-- Nobody edits an intent again that was claimed or is over.
pub frozen :
    {a b : IntentState} → Star IntentEdge a b → is_editable a ≡ false → is_editable b ≡ false
frozen p = Star-keeps (λ x. is_editable x ≡ false) (λ a b e. frozen_edge e) p

-- A later row of an intent: the text and the delivery are those of before, or were edited while that
-- was possible, and then the revision has grown.
pub record IsLater (a b : IntentRow) : Type 0 where
  pub state : Star IntentEdge a.state b.state
  pub workspace : b.workspace_id ≡ a.workspace_id
  pub kind : b.kind ≡ a.kind
  pub created : b.created_at ≡ a.created_at
  pub content :
      ((is_editable a.state ≡ true) × (a.revision < b.revision))
      ⊎ ((b.body ≡ a.body) × (b.delivery ≡ a.delivery) × (b.revision ≡ a.revision))

pub IsLater-refl : (a : IntentRow) → IsLater a a
IsLater-refl a = record {
  state = here a.state;
  workspace = refl;
  kind = refl;
  created = refl;
  content = inr (refl, refl, refl);
}

pub IsLater-trans : {a b c : IntentRow} → IsLater a b → IsLater b c → IsLater a c
IsLater-trans {a} {b} {c} p q = record {
  state = Star-trans p.state q.state;
  workspace = q.workspace ∙ p.workspace;
  kind = q.kind ∙ p.kind;
  created = q.created ∙ p.created;
  content = elim (Bool-cases (is_editable a.state)) [
    | inl e ↦ ground (arith, p.content, q.content)
    | inr e ↦ ground (arith, p.content, q.content, frozen p.state e)
  ];
}

pub record IsLaterWork (a b : WorkRow) : Type 0 where
  pub state : Star WorkEdge a.state b.state
  pub workspace : b.workspace_id ≡ a.workspace_id
  pub title : b.title ≡ a.title
  pub created : b.created_at ≡ a.created_at
  pub queue : a.queue_revision ≤ b.queue_revision

pub IsLaterWork-refl : (a : WorkRow) → IsLaterWork a a
IsLaterWork-refl a = record {
  state = here a.state;
  workspace = refl;
  title = refl;
  created = refl;
  queue = omega arith;
}

pub IsLaterWork-trans : {a b c : WorkRow} → IsLaterWork a b → IsLaterWork b c → IsLaterWork a c
IsLaterWork-trans p q = record {
  state = Star-trans p.state q.state;
  workspace = q.workspace ∙ p.workspace;
  title = q.title ∙ p.title;
  created = q.created ∙ p.created;
  queue = omega (arith, p.queue, q.queue);
}
