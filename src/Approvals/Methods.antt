-- ===== src/Approvals/Methods.antt =====
-- crates/store/src/approvals.rs: the methods of `Store` on the approvals table. A method that gives
-- the connection up between two statements has a part for each.
use code_space.Prelude.{
  ℕ, String, Bool, not, Option, none, some, ◌∷◌, ◌==◌, string_keyed, ◌||◌, if◌then◌else◌, any,
  select,
}
use code_space.Domain.Error.{Result, ok, err, ◌>>=◌}
use code_space.Domain.Approval.{
  ApprovalState, ApprovalDecision, ApprovalTargetTool, grant, deny, tool_name, parse,
}
use code_space.Map.{get, insert, find, update}
use code_space.Approvals.Types.{
  ApprovalRecord, ResumeClaim, PersistedResume, Serde, Row, State, not_found, conflict,
  unknown_state, ambiguous, into_record, matches, scrubbed_params, quoted,
}

-- Methods that change the store return its next state beside their result.
abbrev pub Outcome : Type 0 → Type 0
Outcome A = State × Result A

abbrev pub with_state : State → Row → String → Row
with_state s row st = record row { state = st }

-- `create_approval`, with the id that it mints: the primary key and the index on active fingerprints
-- are unique.
abbrev pub fresh : String → ApprovalTargetTool → String → String → String → Row
fresh workspace_id tool fingerprint params_json id = record {
  approval_id = id;
  workspace_id = workspace_id;
  tool = tool_name tool;
  fingerprint = fingerprint;
  params_json = params_json;
  state = "pending";
  resolved_at = none;
  result_json = none;
}

abbrev pub inserted :
    String → ApprovalTargetTool → String → String → String → State → Outcome ApprovalRecord
inserted workspace_id tool fingerprint params_json id s = (
  record s {
    approvals = insert id (fresh workspace_id tool fingerprint params_json id) s.approvals;
  },
  ok (record {
    approval_id = id;
    workspace_id = workspace_id;
    tool = tool;
    fingerprint = fingerprint;
    params_json = params_json;
    state = ApprovalState.pending;
    resolved_at = none;
  }),
)

unfoldable pub create_approval :
    String → ApprovalTargetTool → String → String → String → State → Outcome ApprovalRecord
create_approval workspace_id tool fingerprint params_json id s =
    elim (find (matches workspace_id fingerprint) s.approvals) [
      | some existing ↦ (s, into_record existing)
      | none ↦ elim (get id s.approvals) [
        | some taken ↦ (s, err (conflict "active approval fingerprint conflict"))
        | none ↦ inserted workspace_id tool fingerprint params_json id s
      ]
    ]

-- `resolve_approval` at the time `now`.
abbrev pub decided : Serde → ApprovalDecision → ℕ → Row → Row
decided serde grant now row = record row { state = "granted"; resolved_at = some now }
decided serde deny now row = record row {
  state = "denied";
  resolved_at = some now;
  params_json = scrubbed_params serde row.tool row.workspace_id row.fingerprint;
}

decision_state : ApprovalDecision → ApprovalState
decision_state grant = ApprovalState.granted
decision_state deny = ApprovalState.denied

abbrev pub is_in : String → Row → Bool
is_in st row = row.state == st

unfoldable pub resolve_approval :
    Serde → String → ApprovalDecision → ℕ → State → Outcome ApprovalState
unfolding decision_state
resolve_approval serde id decision now s = elim (get id s.approvals) [
  | none ↦ (s, err (not_found id))
  | some row ↦ elim (parse row.state) [
    | none ↦ (s, err (conflict (quoted "unknown approval state `" row.state)))
    | some st ↦
        if row.state == "pending"
        then (
          record s {
            approvals = update id (is_in "pending") (decided serde decision now) s.approvals;
          },
          ok (decision_state decision),
        )
        else (s, err (conflict "approval is no longer pending"))
  ]
]

-- `mark_inflight` and the drop of its guard.
unfoldable pub mark_inflight : String → State → Outcome String
mark_inflight id s =
    if any (λ k. k == id) s.resume_inflight
    then (s, err (conflict "resume already in progress"))
    else (record s { resume_inflight = id ∷ s.resume_inflight }, ok id)

unfoldable pub drop_guard : String → State → State
drop_guard id s = record s { resume_inflight = select (λ k. not (k == id)) s.resume_inflight }

unfoldable pub replay_consumed : Serde → String → Option String → Result ResumeClaim
replay_consumed serde id none =
    err (ambiguous id "consumed approval is missing a terminal result" none)
replay_consumed serde id (some raw) = elim (serde.from_str raw) [
  | none ↦ err (ambiguous id "consumed approval has an unreadable result" none)
  | some (PersistedResume.success result) ↦ ok (ResumeClaim.replay_success result)
  | some (PersistedResume.failed e) ↦ ok (ResumeClaim.replay_error e)
]

-- The first look of a round of `claim_resume`: a result, or that the resume has to be taken.
unfoldable pub look : Serde → String → State → Result (Option ResumeClaim)
look serde id s = elim (get id s.approvals) [
  | none ↦ err (not_found id)
  | some row ↦
      if row.state == "consumed"
      then replay_consumed serde id row.result_json >>= (λ claim. ok (some claim))
      else if row.state == "pending"
      then err (conflict "approval is still pending")
      else if row.state == "denied"
      then err (conflict "approval was denied")
      else if row.state == "granted" || (row.state == "queued" || row.state == "resuming")
      then ok none
      else err (unknown_state row.state)
]

-- A claim takes the guard with it. Where the row cannot be read the guard is dropped.
abbrev pub held :
    (ApprovalRecord → String → ResumeClaim)
    → String
    → State
    → Result ApprovalRecord
    → Outcome (Option ResumeClaim)
held claim id s (ok r) = (s, ok (some (claim r id)))
held claim id s (err e) = (drop_guard id s, err e)

abbrev pub hold :
    (ApprovalRecord → String → ResumeClaim) → String → Row → State → Outcome (Option ResumeClaim)
hold claim id row s = held claim id s (into_record row)

-- The second look, under the guard: `none` begins another round.
unfoldable pub take : String → State → Outcome (Option ResumeClaim)
take id s = elim (get id s.approvals) [
  | none ↦ (drop_guard id s, err (not_found id))
  | some row ↦
      if row.state == "granted"
      then hold ResumeClaim.execute id row (record s {
        approvals = update id (is_in "granted") (λ r. record r { state = "queued" }) s.approvals;
      })
      else if row.state == "queued"
      then hold ResumeClaim.execute id row s
      else if row.state == "resuming"
      then hold ResumeClaim.reconcile id row s
      else if row.state == "consumed" || (row.state == "pending" || row.state == "denied")
      then (drop_guard id s, ok none)
      else (drop_guard id s, err (unknown_state row.state))
]
