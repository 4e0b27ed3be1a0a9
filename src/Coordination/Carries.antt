-- ===== src/Coordination/Carries.antt =====
-- crates/store/src/coord.rs: what each call leaves of the rows of both tables.
use code_space.Prelude.{
  ℕ, suc, String, ◌≡◌, ◌⊎◌, refl, sym, subst, Bool, true, Option, none, some, List, [], ◌∷◌, inl,
  inr, arith, Option-cases, string_keyed, nat_keyed, option_keyed, here,
}
use code_space.Map.{get, insert, update, map_values}
use code_space.Map.Moves.{
  Moves, Moves-refl, Moves-trans, update-Moves, map_values-Moves, insert-Moves,
}
use code_space.Coordination.Types.{WorkRow, IntentRow, Store}
use code_space.Coordination.Queries.{is_queued}
use code_space.Coordination.Intents.{
  always, bump_revision, bump_of, insert_intent, update_intent, placed, place_all,
}
use code_space.Coordination.Progress.{
  IsLater, IsLater-refl, IsLater-trans, IsLaterWork, IsLaterWork-refl, IsLaterWork-trans,
}
use code_space.Coordination.Rows.{placed-IsLater}

-- Every row of the first store has its later row in the second.
pub record Carries (s t : Store) : Type 0 where
  pub intents : (j : String) → Moves IsLater (get j s.intents) (get j t.intents)
  pub works : (j : String) → Moves IsLaterWork (get j s.works) (get j t.works)

pub Carries-refl : (s : Store) → Carries s s
Carries-refl s = record {
  intents = λ j. Moves-refl IsLater-refl (get j s.intents);
  works = λ j. Moves-refl IsLaterWork-refl (get j s.works);
}

pub Carries-trans : {s t u : Store} → Carries s t → Carries t u → Carries s u
Carries-trans p q = record {
  intents = λ j. Moves-trans (λ a b c. IsLater-trans) (p.intents j) (q.intents j);
  works = λ j. Moves-trans (λ a b c. IsLaterWork-trans) (p.works j) (q.works j);
}

pub same-Carries : {s t : Store} → t ≡ s → Carries s t
same-Carries {s} e = subst (λ u. Carries s u) (sym e) (Carries-refl s)

pub to-Carries : {s t u : Store} → Carries s t → u ≡ t → Carries s u
to-Carries {s} c e = subst (λ v. Carries s v) (sym e) c

-- The changes of one table.
pub works-Carries :
    (id : String) (f : WorkRow → WorkRow) (s : Store)
    → ((w : WorkRow) → get id s.works ≡ some w → IsLaterWork w (f w))
    → Carries s (record s { works = update id always f s.works })
works-Carries id f s h = record {
  intents = (Carries-refl s).intents;
  works = λ j. update-Moves IsLaterWork-refl id j always f s.works (λ w e t. h w e);
}

pub rows-Carries :
    (id : String) (p : IntentRow → Bool) (f : IntentRow → IntentRow) (s : Store)
    → ((r : IntentRow) → get id s.intents ≡ some r → p r ≡ true → IsLater r (f r))
    → Carries s (record s { intents = update id p f s.intents })
rows-Carries id p f s h = record {
  intents = λ j. update-Moves IsLater-refl id j p f s.intents h;
  works = (Carries-refl s).works;
}

pub all-Carries :
    (f : IntentRow → IntentRow) (s : Store)
    → ((r : IntentRow) → IsLater r (f r))
    → Carries s (record s { intents = map_values f s.intents })
all-Carries f s h = record {
  intents = λ j. map_values-Moves IsLater-refl j f s.intents h;
  works = (Carries-refl s).works;
}

pub bump-Carries : (id : String) (s : Store) → Carries s (bump_revision id s)
unfolding bump_revision
bump-Carries id s =
    works-Carries id (λ w. record w { queue_revision = suc w.queue_revision }) s
      (λ w e. record {
        state = here w.state;
        workspace = refl;
        title = refl;
        created = refl;
        queue = omega arith;
      })

bump_of-Carries : (id : Option String) (s : Store) → Carries s (bump_of id s)
bump_of-Carries none s = Carries-refl s
bump_of-Carries (some id) s = bump-Carries id s

-- The changes of one intent.
pub bumped-Carries : {s t : Store} → Carries s t → (id : Option String) → Carries s (bump_of id t)
bumped-Carries {s} {t} c id = Carries-trans c (bump_of-Carries id t)

-- An UPDATE of one intent, with the revision of its work.
pub update_intent-Carries :
    (id : String) (work_id : Option String) (p : IntentRow → Bool) (f : IntentRow → IntentRow)
    (s : Store)
    → ((r : IntentRow) → p r ≡ true → IsLater r (f r))
    → Carries s (update_intent id work_id p f s).0
update_intent-Carries id work_id p f s h =
    let written : Store = bump_of work_id (record s { intents = update id p f s.intents }) in
    let end : ((update_intent id work_id p f s).0 ≡ s)
        ⊎ ((update_intent id work_id p f s).0 ≡ written) =
      ground arith in
    elim end [
      | inl e ↦ same-Carries e
      | inr e ↦ to-Carries (bumped-Carries (rows-Carries id p f s (λ r g t. h r t)) work_id) e
    ]

pub insert_intent-Carries :
    (id : String) (r : IntentRow) (s : Store) → Carries s (insert_intent id r s).0
insert_intent-Carries id r s = elim (Option-cases (get id s.intents)) [
  | inr (q, e) ↦ rw (insert_intent, e) (Carries-refl s)
  | inl e ↦
      let written : Store = bump_of r.work_id (record s { intents = insert id r s.intents }) in
      let fresh : Carries s (record s { intents = insert id r s.intents }) = record {
        intents = λ j. insert-Moves IsLater-refl id j r s.intents e;
        works = (Carries-refl s).works;
      } in
      let end : ((insert_intent id r s).0 ≡ s) ⊎ ((insert_intent id r s).0 ≡ written) =
        rw (insert_intent, e) (ground arith) in
      elim end [ inl q ↦ same-Carries q | inr q ↦ to-Carries (bumped-Carries fresh r.work_id) q ]
]

pub place_all-Carries :
    (next now : ℕ) (ids : List String) (s : Store) → Carries s (place_all next now ids s)
unfolding place_all
place_all-Carries next now [] s = Carries-refl s
place_all-Carries next now (id ∷ ids) s =
    Carries-trans
      (rows-Carries id (λ r. is_queued r.state) (placed next now) s
        (λ r g t. placed-IsLater next now r))
      (place_all-Carries (suc next) now ids _)
