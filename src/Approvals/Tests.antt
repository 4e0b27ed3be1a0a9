-- ===== src/Approvals/Tests.antt =====
-- Runs of the approvals table, with the theorems at them.
use code_space.Prelude.{
  String, ◌≡◌, ◌↔◌, refl, true, false, Option, none, some, List, [], ◌∷◌, ◌==◌, string_keyed,
  is_some, any, select, if◌then◌else◌,
}
use code_space.Domain.Error.{ok, err}
use code_space.Domain.Approval.{
  parse_iff, as_str, ApprovalState, grant, apply_patch, OperationResumeResult, parse,
}
use code_space.Domain.Patch.{PatchStatus, new_result}
use code_space.Map.{get, update, insert, remove, find, keys_where}
use code_space.Approvals.Types.{
  ApprovalRecord, ResumeClaim, PersistedResume, Serde, Row, State, into_record, conflict,
}
use code_space.Approvals.Methods.{create_approval, resolve_approval, fresh}
use code_space.Approvals.Settle.{claim_resume, finish_resume, stays_queued}
use code_space.Approvals.Changes.{Call, step, run, init, create, resolve, mark, take_claim}
use code_space.Approvals.Lifecycle.{IsLater, step-IsLater, run-closed}
use code_space.Approvals.Contents.{IsSoundState, run-init-IsSound, IsUnique, run-init-IsUnique}
use code_space.Approvals.Claims.{claim_resume_ends}
use code_space.Approvals.Once.{claim_resume_once, idle, claimed_state}
use code_space.Approvals.Replay.{claim_resume-finish_resume, replay}

abbrev patched : OperationResumeResult
patched = record {
  approval_id = "appr-1";
  state = ApprovalState.consumed;
  patch = some (new_result PatchStatus.applied "op-1");
  exec = none;
}

-- A codec for the two results of these runs.
abbrev read : String → Option PersistedResume
read text = if text == "success" then some (PersistedResume.success patched) else none

abbrev show : PersistedResume → String
show (PersistedResume.success r) = "success"
show (PersistedResume.failed e) = "failed"

abbrev serde : Serde
serde = record { object = λ fields. "{}"; to_string = show; from_str = read }

abbrev asked : List Call
asked = create "ws" apply_patch "fp" "{patch}" "appr-1" ∷ resolve "appr-1" grant 7 ∷ []

abbrev granted_row : Row
granted_row = record (fresh "ws" apply_patch "fp" "{patch}" "appr-1") {
  state = "granted";
  resolved_at = some 7;
}

abbrev granted : State
granted = record {
  approvals = ("appr-1", granted_row) ∷ [];
  resume_inflight = [];
  fail_next_finish = false;
}

abbrev resuming_row : Row
resuming_row = record granted_row { state = "resuming" }

abbrev resuming : State
resuming = record {
  approvals = ("appr-1", resuming_row) ∷ [];
  resume_inflight = "appr-1" ∷ [];
  fail_next_finish = false;
}

run-asked : run serde asked init ≡ granted
unfolding run step create_approval resolve_approval find keys_where select get insert remove update
    parse
run-asked = refl

abbrev denied_row : Row
denied_row = record granted_row { state = "denied"; params_json = "{}" }

abbrev denied : State
denied = record {
  approvals = ("appr-1", denied_row) ∷ [];
  resume_inflight = [];
  fail_next_finish = false;
}

step-IsLater_example :
    (b : Row) × (get "appr-1" (step serde (take_claim "appr-1") granted).approvals ≡ some b)
    × IsLater granted_row b
unfolding get
step-IsLater_example = step-IsLater serde (take_claim "appr-1") granted "appr-1" granted_row refl

run-closed_example : get "appr-1" (run serde asked denied).approvals ≡ some denied_row
unfolding get
run-closed_example = run-closed serde asked denied "appr-1" denied_row refl refl

run-init-IsSound_example : IsSoundState serde (run serde asked init)
run-init-IsSound_example = run-init-IsSound serde asked

run-init-IsUnique_example : IsUnique (run serde asked init)
run-init-IsUnique_example = run-init-IsUnique serde asked

claim_resume_ends_example :
    is_some
      (claim_resume serde
        (λ n. run serde (mark "appr-1" ∷ take_claim "appr-1" ∷ []))
        2
        "appr-1"
        granted).1
    ≡ true
claim_resume_ends_example =
    claim_resume_ends serde "appr-1" (λ n. mark "appr-1" ∷ take_claim "appr-1" ∷ []) granted

abbrev granted_record : ApprovalRecord
granted_record = record {
  approval_id = "appr-1";
  workspace_id = "ws";
  tool = apply_patch;
  fingerprint = "fp";
  params_json = "{patch}";
  state = ApprovalState.granted;
  resolved_at = some 7;
}

claim_resume_once_example :
    (claim_resume serde idle 1 "appr-1" granted
      ≡ (claimed_state "appr-1" granted, some (ok (ResumeClaim.execute granted_record "appr-1"))))
    × (claim_resume serde idle 1 "appr-1" (claimed_state "appr-1" granted)
        ≡ (claimed_state "appr-1" granted, some (err (conflict "resume already in progress"))))
unfolding get into_record any parse
claim_resume_once_example =
    claim_resume_once serde "appr-1" 0 0 granted granted_row granted_record refl refl refl refl

claim_resume-finish_resume_example :
    claim_resume serde
      (λ n s. s)
      1
      "appr-1"
      (run serde asked (finish_resume serde (λ t. t) "appr-1" (ok patched) resuming).0)
    ≡ (
      run serde asked (finish_resume serde (λ t. t) "appr-1" (ok patched) resuming).0,
      some (ok (replay (ok patched))),
    )
unfolding get stays_queued
claim_resume-finish_resume_example =
    claim_resume-finish_resume serde "appr-1" (ok patched) resuming resuming_row asked (λ n s. s) 0
      refl refl refl refl refl

parse_iff_example :
    (parse "granted" ≡ some ApprovalState.granted) ↔ ("granted" ≡ as_str ApprovalState.granted)
parse_iff_example = parse_iff "granted" ApprovalState.granted
