-- ===== src/Coordination/Counts.antt =====
-- crates/store/src/coord.rs: what the counts of a status say about the methods.
use code_space.Prelude.{
  ℕ, ◌<◌, String, ◌≡◌, ◌↔◌, refl, sym, ap, ◌∙◌, Bool, true, false, Option, none, some, List, [],
  ◌∷◌, inl, inr, arith, Option-cases, string_keyed, front, length, length-order_by, ltb,
}
use code_space.Domain.Error.{Result, ok}
use code_space.Map.{get, keys_where, length-keys_where, holds}
use code_space.Coordination.Types.{
  IntentRow, WorkRow, Store, accepts_claims, SteerStatusResult, ClaimedIntent,
}
use code_space.Coordination.Queries.{
  queue_ids, by_position, as_u32, count, count_claimable, count_state, is_queued, is_claimed,
  is_claimable, steer_status,
}
use code_space.Coordination.Claims.{claim_front, front-none, front_passes}
use code_space.Coordination.Works.{claim_next, claimed_intent}

-- The rows of a table are counted in 32 bits.
abbrev pub Fits : Store → Type 0
Fits s = length s.intents < 4294967296

as_u32_small : (n : ℕ) → n < 4294967296 → as_u32 n ≡ n
as_u32_small n h = omega arith

pub count_queue : (p : IntentRow → Bool) (s : Store) → Fits s → count p s ≡ length (queue_ids p s)
unfolding count queue_ids
count_queue p s h =
    as_u32_small (length (keys_where p s.intents)) (omega (arith, length-keys_where p s.intents, h))
    ∙ sym (length-order_by (by_position s.intents) (keys_where p s.intents))

front-length {ℓ} : {A : Type ℓ} (xs : List A) → (length xs ≡ 0) ↔ (front xs ≡ none)
front-length [] = (λ _. refl, λ _. refl)
front-length (x ∷ xs) = ground arith

pub count-none :
    (p : IntentRow → Bool) (s : Store) → Fits s → (count p s ≡ 0) ↔ (front (queue_ids p s) ≡ none)
count-none p s h =
    let same : count p s ≡ length (queue_ids p s) = count_queue p s h in
    let empty : (length (queue_ids p s) ≡ 0) ↔ (front (queue_ids p s) ≡ none) =
      front-length (queue_ids p s) in
    ((λ z. empty.0 (sym same ∙ z)), (λ f. same ∙ empty.1 f))

-- Something that passes is counted, unless it is not there; what is counted is there.
pub count_zero :
    (p : IntentRow → Bool) (j : String) (r : IntentRow) (s : Store)
    → Fits s
    → ltb 0 (count p s) ≡ false
    → get j s.intents ≡ some r
    → p r ≡ false
count_zero p j r s fits h found =
    let zero : count p s ≡ 0 = ground arith in
    let fails : holds p (get j s.intents) ≡ false =
      front-none p s j ((count-none p s fits).0 zero) in
    sym (ap (λ o. holds p o) found) ∙ fails

pub count-some :
    (p : IntentRow → Bool) (s : Store)
    → ltb 0 (count p s) ≡ true
    → (id : String) × (r : IntentRow) × (get id s.intents ≡ some r) × (p r ≡ true)
unfolding count queue_ids
count-some p s h = elim (Option-cases (front (queue_ids p s))) [
  | inl f ↦
      let same : length (queue_ids p s) ≡ length (keys_where p s.intents) =
        length-order_by (by_position s.intents) (keys_where p s.intents) in
      let zero : length (keys_where p s.intents) ≡ 0 =
        sym same ∙ (front-length (queue_ids p s)).1 f in
      let nothing : count p s ≡ 0 = ap as_u32 zero in
      let never : ltb 0 (count p s) ≡ false = rw nothing refl in cc
  | inr (id, f) ↦
      let passes : holds p (get id s.intents) ≡ true = front_passes p s id f in
      elim (Option-cases (get id s.intents)) [
        | inl g ↦ let fails : holds p (get id s.intents) ≡ false = rw g refl in cc
        | inr (r, g) ↦ (id, r, g, sym (ap (λ o. holds p o) g) ∙ passes)
      ]
]

-- In a work that accepts claims, and a table of less than 2^32 intents, the status says that nothing
-- can be claimed exactly when `claim_next` answers with no intent and changes nothing.
pub claimable_now_idle :
    (work_id : String) (now : ℕ) (s : Store) (w : WorkRow) (st : SteerStatusResult)
    → Fits s
    → get work_id s.works ≡ some w
    → accepts_claims w.state ≡ true
    → steer_status work_id s ≡ ok st
    → (st.claimable_now ≡ 0) ↔ (claim_next work_id now s ≡ (s, ok none))
unfolding steer_status claim_next
claimable_now_idle work_id now s w st fits known opened h =
    let reads : steer_status work_id s
        ≡ ok (record {
          work_id = work_id;
          state = w.state;
          queued = count_state is_queued work_id s;
          claimed = count_state is_claimed work_id s;
          claimable_now = count_claimable work_id w.state s;
          queue_revision = w.queue_revision;
        }) =
      rw (steer_status, known) refl in
    let counted : st.claimable_now ≡ count_claimable work_id w.state s = cc in
    let none_waits : (count_claimable work_id w.state s ≡ 0)
        ↔ (front (queue_ids (is_claimable work_id w.state) s) ≡ none) =
      count-none (is_claimable work_id w.state) s fits in
    (
      λ z. rw (claim_next, known, opened, none_waits.0 (sym counted ∙ z)) refl,
      λ c. elim (Option-cases (front (queue_ids (is_claimable work_id w.state) s))) [
        | inl f ↦ counted ∙ none_waits.1 f
        | inr (id, f) ↦
            let (r, g, ready, done) = claim_front work_id id now s w known opened f in
            let nothing : Result (Option ClaimedIntent) = ok none in
            let item : nothing ≡ ok (some (claimed_intent id r)) = ap (λ x. x.1) (sym c ∙ done) in
            cc
      ],
    )
