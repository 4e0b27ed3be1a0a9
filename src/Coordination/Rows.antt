-- ===== src/Coordination/Rows.antt =====
-- crates/store/src/coord.rs: the rows that the methods write are later rows.
use code_space.Prelude.{
  ℕ, suc, String, ◌≡◌, refl, true, none, some, inl, inr, arith, Bool-cases, ◌==◌, string_keyed,
  nat_keyed, option_keyed, ◌&&◌, ◌||◌, is_none, Star, here, one,
}
use code_space.Coordination.Types.{
  next_work, IntentState, draft, queued, claimed, DeliveryPolicy, SteerOutcome, IntentRow,
  is_editable,
}
use code_space.Coordination.Queries.{is_of, is_queued, is_claimed, is_draft, delivery_beq}
use code_space.Coordination.Intents.{may_edit, edited, may_queue, queued_row, placed, outcome_state}
use code_space.Coordination.Works.{adopt, adopted_delivery, may_claim, claimed_row, detach}
use code_space.Coordination.Progress.{
  IntentEdge, to_queued, draft_cancelled, queued_cancelled, to_claimed, to_done, to_blocked,
  IsLater, IsLater-refl,
}

-- A change of state alone.
pub moved :
    (a b : IntentRow)
    → Star IntentEdge a.state b.state
    → b.workspace_id ≡ a.workspace_id
    → b.kind ≡ a.kind
    → b.created_at ≡ a.created_at
    → b.body ≡ a.body
    → b.delivery ≡ a.delivery
    → b.revision ≡ a.revision
    → IsLater a b
moved a b p w k c x d r = record {
  state = p;
  workspace = w;
  kind = k;
  created = c;
  content = inr (x, d, r);
}

-- A change with a new revision.
pub revised :
    (a b : IntentRow)
    → Star IntentEdge a.state b.state
    → b.workspace_id ≡ a.workspace_id
    → b.kind ≡ a.kind
    → b.created_at ≡ a.created_at
    → is_editable a.state ≡ true
    → b.revision ≡ suc a.revision
    → IsLater a b
revised a b p w k c e r = record {
  state = p;
  workspace = w;
  kind = k;
  created = c;
  content = inl (e, omega (arith, r));
}

pub from_queued : (a : IntentState) → is_queued a ≡ true → Star IntentEdge a claimed
from_queued queued h = one queued claimed to_claimed
from_queued _ h = cc

pub from_draft : (a : IntentState) → is_draft a ≡ true → Star IntentEdge a queued
from_draft draft h = one draft queued to_queued
from_draft _ h = cc

pub from_editable :
    (a : IntentState) → is_editable a ≡ true → Star IntentEdge a IntentState.cancelled
from_editable draft h = one draft IntentState.cancelled draft_cancelled
from_editable queued h = one queued IntentState.cancelled queued_cancelled
from_editable _ h = cc

pub from_claimed :
    (a : IntentState) (o : SteerOutcome) → is_claimed a ≡ true → Star IntentEdge a (outcome_state o)
from_claimed claimed SteerOutcome.done h = one claimed IntentState.done to_done
from_claimed claimed SteerOutcome.blocked h = one claimed IntentState.blocked to_blocked
from_claimed _ o h = cc

pub draft_editable : (a : IntentState) → is_draft a ≡ true → is_editable a ≡ true
draft_editable a h = ground arith

-- The rows that the methods write.
pub edited-IsLater :
    (body : String) (d : DeliveryPolicy) (now revision : ℕ) (r : IntentRow)
    → may_edit revision r ≡ true
    → IsLater r (edited body d now r)
edited-IsLater body d now revision r h =
    revised r (edited body d now r) (here r.state) refl refl refl (ground arith) refl

pub queued_row-IsLater :
    (now revision : ℕ) (r : IntentRow) → may_queue revision r ≡ true → IsLater r (queued_row now r)
queued_row-IsLater now revision r h =
    let drafted : is_draft r.state ≡ true = ground arith in
    revised r (queued_row now r) (from_draft r.state drafted) refl refl refl
      (draft_editable r.state drafted) refl

pub claimed_row-IsLater :
    (now revision : ℕ) (r : IntentRow) → may_claim revision r ≡ true → IsLater r (claimed_row now r)
claimed_row-IsLater now revision r h =
    moved r (claimed_row now r) (from_queued r.state (ground arith)) refl refl refl refl refl refl

pub placed-IsLater : (position now : ℕ) (r : IntentRow) → IsLater r (placed position now r)
placed-IsLater position now r =
    moved r (placed position now r) (here r.state) refl refl refl refl refl refl

pub detach-IsLater : (work_id : String) (now : ℕ) (r : IntentRow) → IsLater r (detach work_id now r)
unfolding detach
detach-IsLater work_id now r =
    elim (Bool-cases
      (is_of work_id r && (is_editable r.state || delivery_beq r.delivery next_work))) [
        | inl e ↦
            rw (detach, e)
              (moved r (record r { work_id = none; updated_at = now }) (here r.state) refl refl refl
                refl refl refl)
        | inr e ↦ rw (detach, e) (IsLater-refl r)
      ]

pub adopt-IsLater :
    (work_id workspace_id : String) (now : ℕ) (r : IntentRow)
    → IsLater r (adopt work_id workspace_id now r)
unfolding adopt
adopt-IsLater work_id workspace_id now r =
    elim (Bool-cases
      (r.workspace_id == workspace_id && (is_none r.work_id && is_editable r.state))) [
        | inl e ↦
            rw (adopt, e)
              (revised r
                (record r {
                  work_id = some work_id;
                  delivery = adopted_delivery r.delivery;
                  updated_at = now;
                  revision = suc r.revision;
                })
                (here r.state) refl refl refl (ground arith) refl)
        | inr e ↦ rw (adopt, e) (IsLater-refl r)
      ]
