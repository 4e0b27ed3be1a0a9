-- ===== src/Approvals/Contents.antt =====
-- crates/store/src/approvals.rs: what the rows hold, over any sequence of calls.
use code_space.Prelude.{
  String, ◌≡◌, refl, Bool, true, false, Option, none, some, ◌==◌, string_keyed, inl, inr,
  Bool-cases, ◌⊎◌, arith, ◌&&◌, List, [], ◌∷◌, ==_iff, is_some,
}
use code_space.Domain.Approval.{
  ApprovalTargetTool, apply_patch, exec_command, grant, deny, parse, parse_tool, tool_name,
}
use code_space.Map.{Map, get, find-none}
use code_space.Approvals.Types.{
  PersistedResume, Serde, Row, State, scrubbed_params, matches, is_active,
}
use code_space.Approvals.Changes.{
  Call, step, run, init, Change, stay, decide, queue, resume, return, consume, Moves, created,
  absent, changed,
}
use code_space.Approvals.Steps.{step-Keeps}
use code_space.Approvals.Lifecycle.{is_closed}

-- The state and the tool are names. The parameters of a closed approval are scrubbed, and a consumed
-- approval has a persisted result.
pub record IsSound (serde : Serde) (a : Row) : Type 0 where
  pub state_known : is_some (parse a.state) ≡ true
  pub tool_known : is_some (parse_tool a.tool) ≡ true
  pub scrubbed :
      (is_closed a.state ≡ false)
      ⊎ (a.params_json ≡ scrubbed_params serde a.tool a.workspace_id a.fingerprint)
  pub resulted :
      ((a.state == "consumed") ≡ false)
      ⊎ ((p : PersistedResume) × (a.result_json ≡ some (serde.to_string p)))

abbrev pub IsSoundAt : Serde → Option Row → Type 0
IsSoundAt serde none = Unit
IsSoundAt serde (some a) = IsSound serde a

abbrev pub IsSoundState : Serde → State → Type 0
IsSoundState serde s = (j : String) → IsSoundAt serde (get j s.approvals)

tool_known_lem : (t : ApprovalTargetTool) → is_some (parse_tool (tool_name t)) ≡ true
tool_known_lem apply_patch = refl
tool_known_lem exec_command = refl

module _ (serde : Serde) where
  Change-IsSound : {a b : Row} → Change serde a b → IsSound serde a → IsSound serde b
  unfolding parse
  Change-IsSound (stay a) h = h
  Change-IsSound (decide a grant now e) h = record {
    state_known = refl;
    tool_known = h.tool_known;
    scrubbed = inl refl;
    resulted = inl refl;
  }
  Change-IsSound (decide a deny now e) h = record {
    state_known = refl;
    tool_known = h.tool_known;
    scrubbed = inr refl;
    resulted = inl refl;
  }
  Change-IsSound (queue a e) h = record {
    state_known = refl;
    tool_known = h.tool_known;
    scrubbed = inl refl;
    resulted = inl refl;
  }
  Change-IsSound (resume a e) h = record {
    state_known = refl;
    tool_known = h.tool_known;
    scrubbed = inl refl;
    resulted = inl refl;
  }
  Change-IsSound (return a e) h = record {
    state_known = refl;
    tool_known = h.tool_known;
    scrubbed = inl refl;
    resulted = inl refl;
  }
  Change-IsSound (consume a p e) h = record {
    state_known = refl;
    tool_known = h.tool_known;
    scrubbed = inr refl;
    resulted = inr (p, refl);
  }

  Moves-IsSound :
      {k : Option String} {j : String} {m : Map String Row} {o p : Option Row}
      → Moves serde k j m o p
      → IsSoundAt serde o
      → IsSoundAt serde p
  unfolding parse
  Moves-IsSound absent h = tt
  Moves-IsSound (created w t f ps id hk free) h = record {
    state_known = refl;
    tool_known = tool_known_lem t;
    scrubbed = inl refl;
    resulted = inl refl;
  }
  Moves-IsSound (changed a b ch) h = Change-IsSound ch h

  run-IsSound :
      (cs : List Call) (s : State) → IsSoundState serde s → IsSoundState serde (run serde cs s)
  unfolding run
  run-IsSound [] s h = h
  run-IsSound (c ∷ cs) s h =
      run-IsSound cs (step serde c s) (λ j. Moves-IsSound (step-Keeps serde j c s) (h j))

  -- Whatever is called on an empty table, each row's state and tool are names, the parameters of a
  -- denied or consumed approval are scrubbed, and a consumed one has a persisted result.
  pub run-init-IsSound : (cs : List Call) → IsSoundState serde (run serde cs init)
  unfolding get
  run-init-IsSound cs = run-IsSound cs init (λ j. tt)

-- Two rows hold the same request open.
abbrev pub clash : Option Row → Option Row → Bool
clash (some a) (some b) = matches a.workspace_id a.fingerprint b && is_active a.state
clash _ _ = false

abbrev pub IsUnique : State → Type 0
IsUnique s = (i j : String) → (i ≡ j) ⊎ (clash (get i s.approvals) (get j s.approvals) ≡ false)

-- The rows of one approval before and after a change.
abbrev pub IsKept : Row → Row → Type 0
IsKept a b =
    (b.workspace_id ≡ a.workspace_id)
    × (b.fingerprint ≡ a.fingerprint)
    × ((is_active a.state ≡ true) ⊎ (is_active b.state ≡ false))

created_left :
    (a b : Row) (w f : String)
    → IsKept a b
    → matches w f a ≡ false
    → (matches w f b && true) ≡ false
created_left a b w f (hw, hf, inr h) free = rw h (ground arith)
created_left a b w f (hw, hf, inl h) free = rw (hw, hf) (ground arith)

created_right :
    (a b : Row) (w f : String)
    → IsKept a b
    → matches w f a ≡ false
    → ((w == b.workspace_id && (f == b.fingerprint && true)) && is_active b.state) ≡ false
created_right a b w f (hw, hf, inr h) free = rw h (ground arith)
created_right a b w f (hw, hf, inl h) free = ground (
  arith,
  ==_iff w b.workspace_id,
  ==_iff a.workspace_id w,
  ==_iff f b.fingerprint,
  ==_iff a.fingerprint f,
)

changed_both :
    (a b c d : Row)
    → IsKept a b
    → IsKept c d
    → clash (some a) (some c) ≡ false
    → clash (some b) (some d) ≡ false
changed_both a b c d (hw, hf, inr h) k e = rw h (ground arith)
changed_both a b c d (hw, hf, inl h) (kw, kf, inr k) e = rw k (ground arith)
changed_both a b c d (hw, hf, inl h) (kw, kf, inl k) e = rw (hw, hf, kw, kf) (ground arith)

module _ (serde : Serde) where
  -- Activity is never regained, and a request never changes.
  Change-active : {a b : Row} → Change serde a b → IsKept a b
  Change-active (stay a) =
      (refl, refl, elim (Bool-cases (is_active a.state)) [ inl t ↦ inl t | inr t ↦ inr t ])
  Change-active (decide a grant now e) = (refl, refl, inl (rw e refl))
  Change-active (decide a deny now e) = (refl, refl, inl (rw e refl))
  Change-active (queue a e) = (refl, refl, inl (rw e refl))
  Change-active (resume a e) = (refl, refl, inl (rw e refl))
  Change-active (return a e) = (refl, refl, inl (rw e refl))
  Change-active (consume a p e) = (refl, refl, inr refl)

  Moves-clash :
      {k : Option String} {i j : String} {m : Map String Row} {o p o' p' : Option Row}
      → Moves serde k i m o p
      → Moves serde k j m o' p'
      → get i m ≡ o
      → get j m ≡ o'
      → (i ≡ j) ⊎ (clash o o' ≡ false)
      → (i ≡ j) ⊎ (clash p p' ≡ false)
  Moves-clash absent y gi gj h = inr refl
  Moves-clash (created w t f ps id hk free) absent gi gj h = inr refl
  Moves-clash (changed a b ch) absent gi gj h = inr refl
  Moves-clash (created w t f ps id hk free) (created w' t' f' ps' id' hk' free') gi gj h = inl cc
  Moves-clash {m = m} (created w t f ps id hk free) (changed a b ch) gi gj h =
      inr (created_left a b w f (Change-active ch) (find-none (matches w f) _ a m free gj))
  Moves-clash {m = m} (changed a b ch) (created w t f ps id hk free) gi gj h =
      inr (created_right a b w f (Change-active ch) (find-none (matches w f) _ a m free gi))
  Moves-clash (changed a b ch) (changed c d ch') gi gj (inl same) = inl same
  Moves-clash (changed a b ch) (changed c d ch') gi gj (inr h) =
      inr (changed_both a b c d (Change-active ch) (Change-active ch') h)

  run-IsUnique : (cs : List Call) (s : State) → IsUnique s → IsUnique (run serde cs s)
  unfolding run
  run-IsUnique [] s h = h
  run-IsUnique (c ∷ cs) s h =
      run-IsUnique cs (step serde c s)
        (λ i j. Moves-clash (step-Keeps serde i c s) (step-Keeps serde j c s) refl refl (h i j))

  -- Whatever is called on an empty table, no two approvals of the same workspace and fingerprint are
  -- pending, granted, queued or resuming.
  pub run-init-IsUnique : (cs : List Call) → IsUnique (run serde cs init)
  unfolding get
  run-init-IsUnique cs = run-IsUnique cs init (λ i j. inr refl)
