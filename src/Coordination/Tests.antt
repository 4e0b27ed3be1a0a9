-- ===== src/Coordination/Tests.antt =====
-- Two works and their queues, with the theorems at them.
use code_space.Prelude.{
  ◌≤◌, String, ◌≡◌, ◌⊎◌, ◌↔◌, refl, Bool, true, none, some, List, [], ◌∷◌, arith, string_keyed,
  nat_keyed, option_keyed, ◌==◌, if◌then◌else◌, order_by, insert_by, select, any, all,
}
use code_space.Domain.Error.{ok, is_ok}
use code_space.Map.{get, updated, keys_where}
use code_space.Coordination.Types.{
  active, closed, draft, queued, next_checkpoint, next_work, follow_up, SteerOutcome, WorkRow,
  IntentRow, Store, ClaimedIntent, SteerStatusResult, claimable_in,
}
use code_space.Coordination.Queries.{
  queue_ids, is_claimable, claimable_deliveries, count, steer_status,
}
use code_space.Coordination.Intents.{bump_revision, complete_intent, place_all, reorder_queued}
use code_space.Coordination.Works.{claim_next, claimed_intent, claimed_row, finish_work}
use code_space.Coordination.Claims.{IsWaiting, claim_next_least}
use code_space.Coordination.Counts.{claimable_now_idle}
use code_space.Coordination.Drain.{finish_work_progress}
use code_space.Coordination.Finish.{is_settled, finish_work_settled}
use code_space.Coordination.Progress.{IsLater}
use code_space.Coordination.Runs.{
  Call, claims, completes, finishes, edits, step, run, step_refused, run-intents-IsLater,
}
use code_space.Coordination.Order.{
  place_of, at_place, reorder_queued_places, reorder_queued_repeats,
}

abbrev work : WorkRow
work = record {
  workspace_id = "ws";
  title = none;
  state = active;
  queue_revision = 4;
  created_at = 10;
  closed_at = none;
}

abbrev intent : IntentRow
intent = record {
  work_id = some "work-1";
  workspace_id = "ws";
  position = 2;
  revision = 3;
  kind = follow_up;
  delivery = next_checkpoint;
  body = "run the tests";
  state = queued;
  created_at = 11;
  updated_at = 12;
  claimed_at = none;
  completed_at = none;
}

abbrev earlier : IntentRow
earlier = record intent { position = 1; body = "first this" }

-- Two intents wait for the work, and a third is a draft.
abbrev store : Store
store = record {
  works = ("work-1", work) ∷ [];
  intents =
      ("fb-1", intent)
      ∷ ("fb-2", earlier)
      ∷ ("fb-3", record intent { state = draft; position = 3 })
      ∷ [];
}

abbrev idle : Store
idle = record store { intents = ("fb-3", record intent { state = draft; position = 3 }) ∷ [] }

claim_next_least_example :
    (id : String) × (r : IntentRow) × (get id store.intents ≡ some r)
    × IsWaiting "work-1" active r
    × (r.position ≤ 2)
    × ((claim_next "work-1" 20 store).1 ≡ ok (some (claimed_intent id r)))
    × (get "fb-3" (claim_next "work-1" 20 store).0.intents
        ≡ (if id == "fb-3" then some (claimed_row 20 r) else get "fb-3" store.intents))
unfolding get claimable_in
claim_next_least_example =
    claim_next_least "work-1" "fb-1" "fb-3" 20 store work intent refl refl
      (record { attached = refl; queued = refl; deliverable = refl })

-- What the theorem speaks of, at this store.
claim_next_test : (claim_next "work-1" 20 store).1 ≡ ok (some (claimed_intent "fb-2" earlier))
unfolding claim_next get queue_ids is_claimable claimable_deliveries keys_where select any order_by
    insert_by updated
claim_next_test = refl

abbrev status : SteerStatusResult
status = record {
  work_id = "work-1";
  state = active;
  queued = 2;
  claimed = 0;
  claimable_now = 2;
  queue_revision = 4;
}

claimable_now_idle_example :
    (status.claimable_now ≡ 0) ↔ (claim_next "work-1" 20 store ≡ (store, ok none))
unfolding steer_status get count is_claimable claimable_deliveries keys_where select any
claimable_now_idle_example =
    claimable_now_idle "work-1" 20 store work status (omega arith) refl refl refl

finish_work_settled_example :
    ((is_settled draft ≡ true)
      ⊎ (((draft ≡ draft) ⊎ ((draft ≡ queued) × (next_checkpoint ≡ next_work)))
          × (get "fb-3" (finish_work "work-1" 20 idle).0.intents
              ≡ some (record intent {
                work_id = none;
                state = draft;
                position = 3;
                updated_at = 20;
              }))))
    × ((w : WorkRow) × (get "work-1" (finish_work "work-1" 20 idle).0.works ≡ some w)
        × (w.state ≡ closed))
unfolding finish_work get count keys_where select
finish_work_settled_example =
    finish_work_settled "work-1" "fb-3" 20 idle (record intent { state = draft; position = 3 })
      (omega arith) refl refl refl

finish_work_progress_example :
    ((id : String) × (is_ok
          (complete_intent "work-1" id SteerOutcome.done 21 (finish_work "work-1" 20 store).0).1
        ≡ true))
    ⊎ ((c : ClaimedIntent) × ((claim_next "work-1" 21 (finish_work "work-1" 20 store).0).1
          ≡ ok (some c)))
unfolding finish_work get count keys_where select
finish_work_progress_example =
    finish_work_progress "work-1" 20 21 SteerOutcome.done store work refl refl refl

abbrev is_blank : String → Bool
is_blank reason = reason == ""

abbrev calls : List Call
calls =
    claims "work-1" 20
    ∷ edits "fb-1" 3 "run all the tests" none 21
    ∷ completes "work-1" "fb-2" SteerOutcome.done 22
    ∷ finishes "work-1" 23
    ∷ []

run-intents-IsLater_example :
    (b : IntentRow) × (get "fb-1" (run is_blank calls store).intents ≡ some b) × IsLater intent b
unfolding get
run-intents-IsLater_example = run-intents-IsLater is_blank calls store "fb-1" intent refl

step_refused_example : (step is_blank (edits "fb-1" 2 "stale" none 21) store).0 ≡ store
unfolding step get code_space.Coordination.Intents.edit_intent
step_refused_example = step_refused is_blank (edits "fb-1" 2 "stale" none 21) store refl

reorder_queued_places_example :
    get "fb-1" (reorder_queued "work-1" ("fb-1" ∷ "fb-2" ∷ []) 20 store).0.intents
    ≡ some (at_place (place_of 1 ("fb-1" ∷ "fb-2" ∷ []) "fb-1") 20 intent)
unfolding reorder_queued get queue_ids keys_where select any all order_by insert_by
reorder_queued_places_example =
    reorder_queued_places "work-1" "fb-1" ("fb-1" ∷ "fb-2" ∷ []) 20 store intent refl refl refl

reorder_queued_repeats_example :
    (is_ok (reorder_queued "work-1" ("fb-2" ∷ "fb-2" ∷ []) 20 store).1 ≡ true)
    × (get "fb-1" (reorder_queued "work-1" ("fb-2" ∷ "fb-2" ∷ []) 20 store).0.intents ≡ some intent)
unfolding get queue_ids keys_where select order_by insert_by
reorder_queued_repeats_example =
    reorder_queued_repeats "work-1" "fb-2" "fb-1" 20 store work intent refl refl refl refl refl
