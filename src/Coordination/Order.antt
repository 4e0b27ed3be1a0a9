-- ===== src/Coordination/Order.antt =====
-- crates/store/src/coord.rs: the positions that `reorder_queued` gives, and the lists that it accepts.
use code_space.Prelude.{
  ℕ, suc, String, ◌≡◌, refl, ap, ◌∙◌, Bool, true, false, Option, none, some, List, [], ◌∷◌, inl,
  inr, arith, Option-cases, ◌==◌, ==_refl, string_keyed, nat_keyed, option_keyed, if◌then◌else◌,
  ◌&&◌, any, all,
}
use code_space.Domain.Error.{is_ok}
use code_space.Map.{get, update, get-update}
use code_space.Coordination.Types.{queued, WorkRow, IntentRow, Store}
use code_space.Coordination.Queries.{is_of, is_queued, queue_ids}
use code_space.Coordination.Intents.{bump_revision, placed, place_all, reorder_queued}

-- The place_all of an id in a list, counted from a number; the last one where it is listed twice.
unfoldable pub place_of : ℕ → List String → String → Option ℕ
place_of n [] j = none
place_of n (id ∷ ids) j = elim (place_of (suc n) ids j) [
  | some p ↦ some p
  | none ↦ if id == j then some n else none
]

abbrev pub at_place : Option ℕ → ℕ → IntentRow → IntentRow
at_place none now r = r
at_place (some p) now r = placed p now r

abbrev first_place : Bool → ℕ → Option ℕ
first_place t n = if t then some n else none

place_places :
    (n now : ℕ) (ids : List String) (j : String) (s : Store) (r : IntentRow)
    → get j s.intents ≡ some r
    → is_queued r.state ≡ true
    → get j (place_all n now ids s).intents ≡ some (at_place (place_of n ids j) now r)
unfolding place_all place_of
place_places n now [] j s r found q = found
place_places n now (id ∷ ids) j s r found q =
    let next : Store = record s {
      intents = update id (λ x. is_queued x.state) (placed n now) s.intents;
    } in
    let row : IntentRow = at_place (first_place (id == j) n) now r in
    let one : get j next.intents ≡ some row =
      rw (get-update id j (λ x. is_queued x.state) (placed n now) s.intents, found, q)
        (if_placed (id == j)) in
    let rest : get j (place_all (suc n) now ids next).intents
        ≡ some (at_place (place_of (suc n) ids j) now row) =
      place_places (suc n) now ids j next row one (state_at (first_place (id == j) n)) in
    elim (Option-cases (place_of (suc n) ids j)) [
      | inl e ↦
          let last : get j (place_all (suc n) now ids next).intents ≡ some row =
            rest ∙ ap (λ o. some (at_place o now row)) e in
          rw (place_of, e) last
      | inr (p, e) ↦
          let last : get j (place_all (suc n) now ids next).intents ≡ some (placed p now row) =
            rest ∙ ap (λ o. some (at_place o now row)) e in
          rw (place_of, e) (last ∙ twice p (first_place (id == j) n))
    ]
  where
    if_placed :
        (t : Bool)
        → (if t then some (placed n now r) else some r) ≡ some (at_place (first_place t n) now r)
    if_placed true = refl
    if_placed false = refl

    state_at : (o : Option ℕ) → is_queued (at_place o now r).state ≡ true
    state_at none = q
    state_at (some p) = q

    twice : (p : ℕ) (o : Option ℕ) → some (placed p now (at_place o now r)) ≡ some (placed p now r)
    twice p none = refl
    twice p (some m) = refl

-- After a reorder that is accepted, a queued intent that the list names stands at its place_all in the
-- list, counted from 1 (the last place_all, where it is named twice), and one that the list does not name
-- is as before.
pub reorder_queued_places :
    (work_id j : String) (ids : List String) (now : ℕ) (s : Store) (r : IntentRow)
    → is_ok (reorder_queued work_id ids now s).1 ≡ true
    → get j s.intents ≡ some r
    → r.state ≡ queued
    → get j (reorder_queued work_id ids now s).0.intents ≡ some (at_place (place_of 1 ids j) now r)
unfolding reorder_queued bump_revision
reorder_queued_places work_id j ids now s r h found q =
    let moved : (reorder_queued work_id ids now s).0
        ≡ bump_revision work_id (place_all 1 now ids s) =
      ground arith in
    ap (λ t. get j t.intents) moved ∙ place_places 1 now ids j s r found (ap is_queued q)

-- Where two intents are queued for a work, a list that names one of them twice is accepted, and the
-- other keeps its row.
pub reorder_queued_repeats :
    (work_id a b : String) (now : ℕ) (s : Store) (w : WorkRow) (r : IntentRow)
    → get work_id s.works ≡ some w
    → queue_ids (λ x. is_of work_id x && is_queued x.state) s ≡ a ∷ b ∷ []
    → get b s.intents ≡ some r
    → r.state ≡ queued
    → (a == b) ≡ false
    → (is_ok (reorder_queued work_id (a ∷ a ∷ []) now s).1 ≡ true)
      × (get b (reorder_queued work_id (a ∷ a ∷ []) now s).0.intents ≡ some r)
unfolding reorder_queued any all place_of
reorder_queued_repeats work_id a b now s w r known waiting found q differ =
    let accepted : is_ok (reorder_queued work_id (a ∷ a ∷ []) now s).1 ≡ true =
      rw (reorder_queued, known, waiting, ==_refl a) refl in
    let unlisted : place_of 1 (a ∷ a ∷ []) b ≡ none = ground (arith, differ) in
    (
      accepted,
      reorder_queued_places work_id b (a ∷ a ∷ []) now s r accepted found q
          ∙ ap (λ o. some (at_place o now r)) unlisted,
    )
