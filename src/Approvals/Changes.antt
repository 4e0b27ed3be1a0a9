-- ===== src/Approvals/Changes.antt =====
-- crates/store/src/approvals.rs: every call on the approvals table as a step, and what a step can do
-- to one row.
use mathlib.Core.Option
use code_space.Prelude.{
  ℕ, String, ◌≡◌, refl, ap, ◌∙◌, Bool, true, false, Option, none, some, ◌==◌, string_keyed, inl,
  inr, ◌⊎◌, Bool-cases, if◌then◌else◌, List, [], ◌∷◌, ==_iff,
}
use code_space.Domain.Error.{Result}
use code_space.Domain.Approval.{ApprovalDecision, ApprovalTargetTool, OperationResumeResult}
use code_space.Map.{Map, get, update, get-update, find}
use code_space.Approvals.Types.{PersistedResume, Serde, Row, State, scrubbed_params, matches}
use code_space.Approvals.Methods.{
  create_approval, fresh, resolve_approval, decided, mark_inflight, drop_guard, take,
}
use code_space.Approvals.Settle.{
  finish_write, finish_resume, return_resume, mark_resuming, fail_next_finish,
}

pub data Call : Type 0 where
  create : String → ApprovalTargetTool → String → String → String → Call
  resolve : String → ApprovalDecision → ℕ → Call
  mark take_claim release give_back dispatch : String → Call
  finish write : String → Result OperationResumeResult → Call
  fail_next : Call

unfoldable pub step : Serde → Call → State → State
step serde (create workspace_id tool fingerprint params_json id) s =
    (create_approval workspace_id tool fingerprint params_json id s).0
step serde (resolve id decision now) s = (resolve_approval serde id decision now s).0
step serde (mark id) s = (mark_inflight id s).0
step serde (take_claim id) s = (take id s).0
step serde (release id) s = drop_guard id s
step serde (give_back id) s = (return_resume id s).0
step serde (dispatch id) s = (mark_resuming id s).0
step serde (finish id result) s = (finish_resume serde (λ t. t) id result s).0
step serde (write id result) s = (finish_write serde id result s).0
step serde fail_next s = fail_next_finish s

unfoldable pub run : Serde → List Call → State → State
run serde [] s = s
run serde (c ∷ cs) s = run serde cs (step serde c s)

abbrev pub init : State
init = record { approvals = []; resume_inflight = []; fail_next_finish = false }

abbrev pub consumed : Serde → PersistedResume → Row → Row
consumed serde p row = record row {
  state = "consumed";
  result_json = some (serde.to_string p);
  params_json = scrubbed_params serde row.tool row.workspace_id row.fingerprint;
}

-- What a step can do to a row.
pub data Change (serde : Serde) : Row → Row → Type 0 where
  stay : (a : Row) → Change serde a a
  decide :
      (a : Row) (d : ApprovalDecision) (now : ℕ)
      → a.state ≡ "pending"
      → Change serde a (decided serde d now a)
  queue : (a : Row) → a.state ≡ "granted" → Change serde a (record a { state = "queued" })
  resume : (a : Row) → a.state ≡ "queued" → Change serde a (record a { state = "resuming" })
  return : (a : Row) → a.state ≡ "resuming" → Change serde a (record a { state = "granted" })
  consume :
      (a : Row) (p : PersistedResume)
      → (a.state ≡ "queued") ⊎ (a.state ≡ "resuming")
      → Change serde a (consumed serde p a)

-- The id that a call can create a row for.
abbrev pub creates : Call → Option String
creates (create workspace_id tool fingerprint params_json id) = some id
creates _ = none

-- And to what the key `j` has, where a row can be created for `k`: a new row appears only for a
-- fingerprint that no active row has.
pub data Moves (serde : Serde) (k : Option String) (j : String) (m : Map String Row)
    : Option Row → Option Row → Type 0 where
  absent : Moves serde k j m none none
  created :
      (workspace_id : String) (tool : ApprovalTargetTool) (fingerprint params_json id : String)
      → k ≡ some j
      → find (matches workspace_id fingerprint) m ≡ none
      → Moves serde k j m none (some (fresh workspace_id tool fingerprint params_json id))
  changed : (a b : Row) → Change serde a b → Moves serde k j m (some a) (some b)

module _ (serde : Serde) (k : Option String) (i : String) where
  pub Moves-refl : (m : Map String Row) (o : Option Row) → Moves serde k i m o o
  Moves-refl m none = absent
  Moves-refl m (some a) = changed a a (stay a)

  Moves-if :
      (m : Map String Row) (o : Option Row) (t : Bool) (p : Row → Bool) (f : Row → Row)
      → ((r : Row) → t ≡ true → o ≡ some r → p r ≡ true → Change serde r (f r))
      → Moves serde k i m o (if t then Option.map (λ r. if p r then f r else r) o else o)
  Moves-if m o false p f h = Moves-refl m o
  Moves-if m none true p f h = absent
  Moves-if m (some r) true p f h = elim (Bool-cases (p r)) [
    | inl e ↦ rw e (changed r (f r) (h r refl refl e))
    | inr e ↦ rw e (Moves-refl m (some r))
  ]

  pub Moves-update :
      (id j : String) (p : Row → Bool) (f : Row → Row) (m : Map String Row)
      → ((r : Row) → get id m ≡ some r → p r ≡ true → Change serde r (f r))
      → Moves serde k i m (get j m) (get j (update id p f m))
  Moves-update id j p f m h = rw (get-update id j p f m) (
      Moves-if m (get j m) (id == j) p f (λ r t e. h r (ap (λ x. get x m) ((==_iff id j).0 t) ∙ e)))
