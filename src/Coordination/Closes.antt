-- ===== src/Coordination/Closes.antt =====
-- crates/store/src/coord.rs: each method that changes works leaves later rows.
use code_space.Prelude.{
  ℕ, suc, String, ◌≡◌, ◌⊎◌, refl, sym, ap, subst, ◌∙◌, true, Option, none, some, inl, inr, arith,
  Bool-cases, Option-cases, string_keyed, nat_keyed, option_keyed, Star, one, front,
}
use code_space.Map.{get, insert, update}
use code_space.Map.Moves.{insert-Moves}
use code_space.Coordination.Types.{
  accepts_claims, next_checkpoint, after_current_work, WorkState, active, closing, closed, WorkRow,
  Store, is_open,
}
use code_space.Coordination.Queries.{
  is_claimable, count_state, count_delivery, is_claimed, queue_ids,
}
use code_space.Coordination.Intents.{bump_revision}
use code_space.Coordination.Works.{
  adopt, new_work, open_work, may_claim, claimed_row, claim_first, claim_next, detach, close_work,
  close_later, finish_open, finish_work,
}
use code_space.Coordination.Rows.{claimed_row-IsLater, detach-IsLater, adopt-IsLater}
use code_space.Coordination.Carries.{
  Carries, Carries-refl, Carries-trans, same-Carries, to-Carries, works-Carries, rows-Carries,
  all-Carries, bumped-Carries,
}
use code_space.Coordination.Progress.{WorkEdge, to_closing, to_closed, IsLaterWork-refl}

pub open_work-Carries :
    (id workspace_id : String) (title : Option String) (now : ℕ) (s : Store)
    → Carries s (open_work id workspace_id title now s).0
unfolding open_work
open_work-Carries id workspace_id title now s = elim (Option-cases (get id s.works)) [
  | inr (w, e) ↦ rw (open_work, e) (Carries-refl s)
  | inl e ↦
      let opened : Carries s
          (record s { works = insert id (new_work workspace_id title now) s.works }) =
        record {
          intents = (Carries-refl s).intents;
          works =
              λ j. insert-Moves IsLaterWork-refl id j (new_work workspace_id title now) s.works e;
        } in
      rw (open_work, e)
        (bumped-Carries
          (Carries-trans opened
            (all-Carries (adopt id workspace_id now) _ (adopt-IsLater id workspace_id now)))
          (some id))
]

claim_first-Carries :
    (work_id : String) (now : ℕ) (s : Store) (o : Option String)
    → Carries s (claim_first work_id now s o).0
claim_first-Carries work_id now s none = Carries-refl s
claim_first-Carries work_id now s (some id) = elim (Option-cases (get id s.intents)) [
  | inl e ↦ rw (claim_first, e) (Carries-refl s)
  | inr (r, e) ↦
      let written : Store =
        bump_revision work_id
          (record s { intents = update id (may_claim r.revision) (claimed_row now) s.intents }) in
      let end : ((claim_first work_id now s (some id)).0 ≡ s)
          ⊎ ((claim_first work_id now s (some id)).0 ≡ written) =
        rw (claim_first, e) (ground arith) in
      elim end [
        | inl q ↦ same-Carries q
        | inr q ↦
            to-Carries
              (bumped-Carries
                (rows-Carries id (may_claim r.revision) (claimed_row now) s
                  (λ x g t. claimed_row-IsLater now r.revision x t))
                (some work_id))
              q
      ]
]

pub claim_next-Carries :
    (work_id : String) (now : ℕ) (s : Store) → Carries s (claim_next work_id now s).0
unfolding claim_next
claim_next-Carries work_id now s = elim (Option-cases (get work_id s.works)) [
  | inl e ↦ rw (claim_next, e) (Carries-refl s)
  | inr (w, e) ↦ elim (Bool-cases (accepts_claims w.state)) [
    | inr b ↦ rw (claim_next, e, b) (Carries-refl s)
    | inl b ↦
        rw (claim_next, e, b)
          (claim_first-Carries work_id now s (front (queue_ids (is_claimable work_id w.state) s)))
  ]
]

close_later-Carries :
    (work_id : String) (s : Store) (w : WorkRow)
    → get work_id s.works ≡ some w
    → w.state ≡ active
    → Carries s (close_later work_id s)
close_later-Carries work_id s w known e =
    bumped-Carries
      (works-Carries work_id (λ v. record v { state = closing }) s
        (λ v g.
          let same : w ≡ v = cc in
          record {
            state =
                subst (λ x. Star WorkEdge x closing) (sym e ∙ ap (λ x. x.state) same)
                  (one active closing to_closing);
            workspace = refl;
            title = refl;
            created = refl;
            queue = omega arith;
          }))
      (some work_id)

close_work-Carries :
    (work_id : String) (now : ℕ) (s : Store) (w : WorkRow)
    → get work_id s.works ≡ some w
    → is_open w.state ≡ true
    → Carries s (close_work work_id now s)
close_work-Carries work_id now s w known e =
    Carries-trans
      (works-Carries work_id
        (λ v. record v {
          state = closed;
          closed_at = some now;
          queue_revision = suc v.queue_revision;
        })
        s
        (λ v g.
          let same : w ≡ v = cc in
          record {
            state =
                one v.state closed (to_closed v.state (subst (λ x. is_open x.state ≡ true) same e));
            workspace = refl;
            title = refl;
            created = refl;
            queue = omega arith;
          }))
      (all-Carries (detach work_id now) _ (detach-IsLater work_id now))

finish_open-Carries :
    (work_id : String) (w : WorkRow) (a b c now : ℕ) (s : Store)
    → get work_id s.works ≡ some w
    → is_open w.state ≡ true
    → Carries s (finish_open work_id w.state a b c now s).0
finish_open-Carries work_id w a b c now s known e =
    let end : ((finish_open work_id w.state a b c now s).0 ≡ s)
        ⊎ (((w.state ≡ active)
              × ((finish_open work_id w.state a b c now s).0 ≡ close_later work_id s))
            ⊎ ((finish_open work_id w.state a b c now s).0 ≡ close_work work_id now s)) =
      ends work_id w.state a b c now s in
    elim end [
      | inl q ↦ same-Carries q
      | inr (inl (o, q)) ↦ to-Carries (close_later-Carries work_id s w known o) q
      | inr (inr q) ↦ to-Carries (close_work-Carries work_id now s w known e) q
    ]
  where
    ends :
        (work_id : String) (st : WorkState) (a b c now : ℕ) (s : Store)
        → ((finish_open work_id st a b c now s).0 ≡ s)
          ⊎ (((st ≡ active) × ((finish_open work_id st a b c now s).0 ≡ close_later work_id s))
              ⊎ ((finish_open work_id st a b c now s).0 ≡ close_work work_id now s))
    ends work_id st a b c now s = ground arith

pub finish_work-Carries :
    (work_id : String) (now : ℕ) (s : Store) → Carries s (finish_work work_id now s).0
unfolding finish_work
finish_work-Carries work_id now s = elim (Option-cases (get work_id s.works)) [
  | inl e ↦ rw (finish_work, e) (Carries-refl s)
  | inr (w, e) ↦ elim (Bool-cases (is_open w.state)) [
    | inr b ↦ rw (finish_work, e, b) (Carries-refl s)
    | inl b ↦
        rw (finish_work, e, b)
          (finish_open-Carries work_id w (count_state is_claimed work_id s)
            (count_delivery next_checkpoint work_id s) (count_delivery after_current_work work_id s)
            now s e b)
  ]
]
