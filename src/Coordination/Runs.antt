-- ===== src/Coordination/Runs.antt =====
-- crates/store/src/coord.rs: sequences of calls, and what each does to a row.
use code_space.Prelude.{
  ℕ, String, ◌≡◌, Bool, false, Option, some, List, [], ◌∷◌, arith, string_keyed, nat_keyed,
  option_keyed,
}
use code_space.Domain.Error.{is_ok}
use code_space.Map.{get}
use code_space.Map.Moves.{Moves-kept}
use code_space.Coordination.Types.{
  DeliveryPolicy, SteerOutcome, CreateIntent, WorkRow, IntentRow, Store,
}
use code_space.Coordination.Intents.{
  Outcome, create_draft, insert_stop_notice, edit_intent, queue_intent, cancel_intent,
  complete_intent, reorder_queued,
}
use code_space.Coordination.Works.{open_work, claim_next, finish_work}
use code_space.Coordination.Edits.{
  create_draft-Carries, stop_notice-Carries, edit_intent-Carries, queue_intent-Carries,
  cancel_intent-Carries, complete_intent-Carries, reorder_queued-Carries,
}
use code_space.Coordination.Closes.{open_work-Carries, claim_next-Carries, finish_work-Carries}
use code_space.Coordination.Carries.{Carries, Carries-refl, Carries-trans}
use code_space.Coordination.Progress.{IsLater, IsLaterWork}

pub data Call : Type 0 where
  opens : String → String → Option String → ℕ → Call
  claims : String → ℕ → Call
  completes : String → String → SteerOutcome → ℕ → Call
  finishes : String → ℕ → Call
  drafts : String → String → CreateIntent → ℕ → Call
  edits : String → ℕ → String → Option DeliveryPolicy → ℕ → Call
  queues : String → ℕ → ℕ → Call
  cancels : String → ℕ → Call
  reorders : String → List String → ℕ → Call
  stops : String → String → String → ℕ → Call

-- The store after a call, and whether it succeeded.
abbrev pub told : {A : Type 0} → Outcome A → Store × Bool
told o = (o.0, is_ok o.1)

module _ (is_blank : String → Bool) where
  unfoldable pub step : Call → Store → Store × Bool
  step (opens id workspace_id title now) s = told (open_work id workspace_id title now s)
  step (claims work_id now) s = told (claim_next work_id now s)
  step (completes work_id id outcome now) s = told (complete_intent work_id id outcome now s)
  step (finishes work_id now) s = told (finish_work work_id now s)
  step (drafts id work_id create now) s = told (create_draft id work_id create now s)
  step (edits id revision body delivery now) s = told (edit_intent id revision body delivery now s)
  step (queues id revision now) s = told (queue_intent id revision now s)
  step (cancels id now) s = told (cancel_intent id now s)
  step (reorders work_id ids now) s = told (reorder_queued work_id ids now s)
  step (stops id work_id reason now) s = told (insert_stop_notice is_blank id work_id reason now s)

  unfoldable pub run : List Call → Store → Store
  run [] s = s
  run (c ∷ cs) s = run cs (step c s).0

  -- A call that is refused leaves the store as it was.
  pub step_refused : (c : Call) (s : Store) → (step c s).1 ≡ false → (step c s).0 ≡ s
  unfolding step open_work claim_next complete_intent finish_work create_draft edit_intent
      queue_intent cancel_intent reorder_queued insert_stop_notice
  step_refused (opens id workspace_id title now) s h = ground arith
  step_refused (claims work_id now) s h = ground arith
  step_refused (completes work_id id outcome now) s h = ground arith
  step_refused (finishes work_id now) s h = ground arith
  step_refused (drafts id work_id create now) s h = ground arith
  step_refused (edits id revision body delivery now) s h = ground arith
  step_refused (queues id revision now) s h = ground arith
  step_refused (cancels id now) s h = ground arith
  step_refused (reorders work_id ids now) s h = ground arith
  step_refused (stops id work_id reason now) s h = ground arith

  -- Every call leaves later rows.
  step-Carries : (c : Call) (s : Store) → Carries s (step c s).0
  unfolding step
  step-Carries (opens id workspace_id title now) s = open_work-Carries id workspace_id title now s
  step-Carries (claims work_id now) s = claim_next-Carries work_id now s
  step-Carries (completes work_id id outcome now) s =
      complete_intent-Carries work_id id outcome now s
  step-Carries (finishes work_id now) s = finish_work-Carries work_id now s
  step-Carries (drafts id work_id create now) s = create_draft-Carries id work_id create now s
  step-Carries (edits id revision body delivery now) s =
      edit_intent-Carries id revision body delivery now s
  step-Carries (queues id revision now) s = queue_intent-Carries id revision now s
  step-Carries (cancels id now) s = cancel_intent-Carries id now s
  step-Carries (reorders work_id ids now) s = reorder_queued-Carries work_id ids now s
  step-Carries (stops id work_id reason now) s =
      stop_notice-Carries is_blank id work_id reason now s

  run-Carries : (cs : List Call) (s : Store) → Carries s (run cs s)
  unfolding run
  run-Carries [] s = Carries-refl s
  run-Carries (c ∷ cs) s = Carries-trans (step-Carries c s) (run-Carries cs (step c s).0)

  -- After any calls an intent is still there, and went on only along the edges of its state; its text
  -- and its delivery are those of before, unless its revision has grown since it was a draft or queued.
  pub run-intents-IsLater :
      (cs : List Call) (s : Store) (j : String) (a : IntentRow)
      → get j s.intents ≡ some a
      → (b : IntentRow) × (get j (run cs s).intents ≡ some b) × IsLater a b
  run-intents-IsLater cs s j a h = Moves-kept a ((run-Carries cs s).intents j) h

  -- After any calls a work is still there, with the title and the workspace that it was opened with;
  -- its revision has not gone back, and its state went on only from active to closing to closed.
  run-works-IsLater :
      (cs : List Call) (s : Store) (j : String) (a : WorkRow)
      → get j s.works ≡ some a
      → (b : WorkRow) × (get j (run cs s).works ≡ some b) × IsLaterWork a b
  run-works-IsLater cs s j a h = Moves-kept a ((run-Carries cs s).works j) h
