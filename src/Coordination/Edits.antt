-- ===== src/Coordination/Edits.antt =====
-- crates/store/src/coord.rs: each method that changes intents leaves later rows.
use code_space.Prelude.{
  ℕ, String, ◌≡◌, ◌⊎◌, refl, subst, Bool, true, Option, some, List, inl, inr, arith, Bool-cases,
  Option-cases, string_keyed, nat_keyed, option_keyed,
}
use code_space.Map.{get}
use code_space.Coordination.Types.{
  DeliveryPolicy, SteerOutcome, CreateIntent, Store, is_editable, UserIntent,
}
use code_space.Coordination.Queries.{is_of, is_claimed}
use code_space.Coordination.Intents.{
  Outcome, always, bump_revision, update_intent, draft_row, create_draft, stop_row,
  insert_stop_notice, may_edit, edited, edit_intent, may_queue, queued_row, queue_intent,
  cancelled_row, cancel_intent, completed_row, complete_intent, place_all, reorder_queued,
  or_current,
}
use code_space.Coordination.Rows.{
  moved, from_editable, from_claimed, edited-IsLater, queued_row-IsLater,
}
use code_space.Coordination.Carries.{
  Carries, Carries-refl, same-Carries, to-Carries, rows-Carries, bumped-Carries,
  update_intent-Carries, insert_intent-Carries, place_all-Carries,
}

pub create_draft-Carries :
    (id work_id : String) (create : CreateIntent) (now : ℕ) (s : Store)
    → Carries s (create_draft id work_id create now s).0
unfolding create_draft
create_draft-Carries id work_id create now s = elim (Option-cases (get work_id s.works)) [
  | inl e ↦ rw (create_draft, e) (Carries-refl s)
  | inr (w, e) ↦
      rw (create_draft, e) (insert_intent-Carries id (draft_row work_id w create now s) s)
]

pub stop_notice-Carries :
    (is_blank : String → Bool) (id work_id reason : String) (now : ℕ) (s : Store)
    → Carries s (insert_stop_notice is_blank id work_id reason now s).0
unfolding insert_stop_notice
stop_notice-Carries is_blank id work_id reason now s = elim (Option-cases (get work_id s.works)) [
  | inl e ↦ rw (insert_stop_notice, e) (Carries-refl s)
  | inr (w, e) ↦
      rw (insert_stop_notice, e)
        (insert_intent-Carries id (stop_row is_blank work_id w reason now s) s)
]

pub edit_intent-Carries :
    (id : String) (revision : ℕ) (body : String) (d : Option DeliveryPolicy) (now : ℕ) (s : Store)
    → Carries s (edit_intent id revision body d now s).0
unfolding edit_intent
edit_intent-Carries id revision body d now s = elim (Option-cases (get id s.intents)) [
  | inl e ↦ rw (edit_intent, e) (Carries-refl s)
  | inr (r, e) ↦
      let change : Outcome UserIntent =
        update_intent id r.work_id (may_edit revision) (edited body (or_current d r.delivery) now)
          s in
      let end : ((edit_intent id revision body d now s).0 ≡ s)
          ⊎ ((edit_intent id revision body d now s).0 ≡ change.0) =
        rw (edit_intent, e) (ground arith) in
      elim end [
        | inl q ↦ same-Carries q
        | inr q ↦
            to-Carries
              (update_intent-Carries id r.work_id (may_edit revision)
                (edited body (or_current d r.delivery) now) s
                (edited-IsLater body (or_current d r.delivery) now revision))
              q
      ]
]

pub queue_intent-Carries :
    (id : String) (revision now : ℕ) (s : Store) → Carries s (queue_intent id revision now s).0
unfolding queue_intent
queue_intent-Carries id revision now s = elim (Option-cases (get id s.intents)) [
  | inl e ↦ rw (queue_intent, e) (Carries-refl s)
  | inr (r, e) ↦
      let change : Outcome UserIntent =
        update_intent id r.work_id (may_queue revision) (queued_row now) s in
      let end : ((queue_intent id revision now s).0 ≡ s)
          ⊎ ((queue_intent id revision now s).0 ≡ change.0) =
        rw (queue_intent, e) (ground arith) in
      elim end [
        | inl q ↦ same-Carries q
        | inr q ↦
            to-Carries
              (update_intent-Carries id r.work_id (may_queue revision) (queued_row now) s
                (queued_row-IsLater now revision))
              q
      ]
]

pub cancel_intent-Carries :
    (id : String) (now : ℕ) (s : Store) → Carries s (cancel_intent id now s).0
unfolding cancel_intent
cancel_intent-Carries id now s = elim (Option-cases (get id s.intents)) [
  | inl e ↦ rw (cancel_intent, e) (Carries-refl s)
  | inr (r, e) ↦ elim (Bool-cases (is_editable r.state)) [
    | inr b ↦ rw (cancel_intent, e, b) (Carries-refl s)
    | inl b ↦
        rw (cancel_intent, e, b)
          (bumped-Carries
            (rows-Carries id always (cancelled_row now) s (λ q g t.
              let same : r ≡ q = cc in
              moved q (cancelled_row now q)
                (from_editable q.state (subst (λ x. is_editable x.state ≡ true) same b)) refl refl
                refl refl refl refl))
            r.work_id)
  ]
]

pub complete_intent-Carries :
    (work_id id : String) (outcome : SteerOutcome) (now : ℕ) (s : Store)
    → Carries s (complete_intent work_id id outcome now s).0
unfolding complete_intent
complete_intent-Carries work_id id outcome now s = elim (Option-cases (get id s.intents)) [
  | inl e ↦ rw (complete_intent, e) (Carries-refl s)
  | inr (r, e) ↦ elim (Bool-cases (is_of work_id r)) [
    | inr b ↦ rw (complete_intent, e, b) (Carries-refl s)
    | inl b ↦ elim (Bool-cases (is_claimed r.state)) [
      | inr c ↦ rw (complete_intent, e, b, c) (Carries-refl s)
      | inl c ↦
          rw (complete_intent, e, b, c)
            (bumped-Carries
              (rows-Carries id always (completed_row outcome now) s (λ q g t.
                let same : r ≡ q = cc in
                moved q (completed_row outcome now q)
                  (from_claimed q.state outcome (subst (λ x. is_claimed x.state ≡ true) same c))
                  refl refl refl refl refl refl))
              (some work_id))
    ]
  ]
]

pub reorder_queued-Carries :
    (work_id : String) (ids : List String) (now : ℕ) (s : Store)
    → Carries s (reorder_queued work_id ids now s).0
unfolding reorder_queued
reorder_queued-Carries work_id ids now s = elim (Option-cases (get work_id s.works)) [
  | inl e ↦ rw (reorder_queued, e) (Carries-refl s)
  | inr (w, e) ↦
      let end : ((reorder_queued work_id ids now s).0 ≡ s)
          ⊎ ((reorder_queued work_id ids now s).0 ≡ bump_revision work_id (place_all 1 now ids s)) =
        rw (reorder_queued, e) (ground arith) in
      elim end [
        | inl q ↦ same-Carries q
        | inr q ↦ to-Carries (bumped-Carries (place_all-Carries 1 now ids s) (some work_id)) q
      ]
]
