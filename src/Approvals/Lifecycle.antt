-- ===== src/Approvals/Lifecycle.antt =====
-- crates/store/src/approvals.rs: the life of one approval, over any sequence of calls: the edges of
-- its state machine, its end, and what its row holds on the way.
use code_space.Prelude.{
  String, ◌≡◌, refl, ap, subst, ◌∙◌, Bool, true, false, Option, some, ◌==◌, string_keyed, inl, inr,
  arith, ◌||◌, ◌&&◌, List, [], ◌∷◌, ==_refl,
}
use code_space.Domain.Approval.{grant, deny}
use code_space.Map.{Map, get}
use code_space.Approvals.Types.{Serde, Row, State}
use code_space.Approvals.Changes.{
  Call, step, run, Change, stay, decide, queue, resume, return, consume, Moves, created, absent,
  changed,
}
use code_space.Approvals.Steps.{step-Keeps}

-- The state machine: a hold is decided once, a granted one is queued, dispatched and consumed, and
-- may be given back on the way.
abbrev pub edge : String → String → Bool
edge a b =
    a == b
    || ((a == "pending" && (b == "granted" || b == "denied"))
        || ((a == "granted" && b == "queued")
            || ((a == "queued" && (b == "resuming" || b == "consumed"))
                || (a == "resuming" && (b == "granted" || b == "consumed")))))

abbrev pub is_closed : String → Bool
is_closed st = st == "denied" || st == "consumed"

-- The row of `b` is the approval of `a`, later.
pub record IsLater (a b : Row) : Type 0 where
  pub moved : edge a.state b.state ≡ true
  pub same_workspace : b.workspace_id ≡ a.workspace_id
  pub same_tool : b.tool ≡ a.tool
  pub same_fingerprint : b.fingerprint ≡ a.fingerprint

module _ (serde : Serde) where
  Change-IsLater : {a b : Row} → Change serde a b → IsLater a b
  Change-IsLater (stay a) = record {
    moved = ground (arith, ==_refl a.state);
    same_workspace = refl;
    same_tool = refl;
    same_fingerprint = refl;
  }
  Change-IsLater (decide a grant now h) = record {
    moved = rw h refl;
    same_workspace = refl;
    same_tool = refl;
    same_fingerprint = refl;
  }
  Change-IsLater (decide a deny now h) = record {
    moved = rw h refl;
    same_workspace = refl;
    same_tool = refl;
    same_fingerprint = refl;
  }
  Change-IsLater (queue a h) = record {
    moved = rw h refl;
    same_workspace = refl;
    same_tool = refl;
    same_fingerprint = refl;
  }
  Change-IsLater (resume a h) = record {
    moved = rw h refl;
    same_workspace = refl;
    same_tool = refl;
    same_fingerprint = refl;
  }
  Change-IsLater (return a h) = record {
    moved = rw h refl;
    same_workspace = refl;
    same_tool = refl;
    same_fingerprint = refl;
  }
  Change-IsLater (consume a p (inl h)) = record {
    moved = rw h refl;
    same_workspace = refl;
    same_tool = refl;
    same_fingerprint = refl;
  }
  Change-IsLater (consume a p (inr h)) = record {
    moved = rw h refl;
    same_workspace = refl;
    same_tool = refl;
    same_fingerprint = refl;
  }

  Moves-IsLater :
      {k : Option String} {j : String} {m : Map String Row} {o p : Option Row} (a : Row)
      → Moves serde k j m o p
      → o ≡ some a
      → (b : Row) × (p ≡ some b) × IsLater a b
  Moves-IsLater a absent h = cc
  Moves-IsLater a (created w t f ps id hk free) h = cc
  Moves-IsLater a (changed c b ch) h =
      let same : c ≡ a = cc in (b, refl, subst (λ x. IsLater x b) same (Change-IsLater ch))

  -- A call moves an approval along one edge of the state machine at most, and never changes its
  -- workspace, tool or fingerprint.
  pub step-IsLater :
      (c : Call) (s : State) (j : String) (a : Row)
      → get j s.approvals ≡ some a
      → (b : Row) × (get j (step serde c s).approvals ≡ some b) × IsLater a b
  step-IsLater c s j a h = Moves-IsLater a (step-Keeps serde j c s) h

  not_closed :
      (a b : Row) (st : String)
      → a.state ≡ st
      → is_closed st ≡ false
      → is_closed a.state ≡ true
      → b ≡ a
  not_closed a b st e opened h =
      let same : is_closed a.state ≡ is_closed st = ap (λ x. is_closed x) e in cc

  Change-closed : {a b : Row} → Change serde a b → is_closed a.state ≡ true → b ≡ a
  Change-closed (stay a) h = refl
  Change-closed (decide a d now e) h = not_closed a _ "pending" e refl h
  Change-closed (queue a e) h = not_closed a _ "granted" e refl h
  Change-closed (resume a e) h = not_closed a _ "queued" e refl h
  Change-closed (return a e) h = not_closed a _ "resuming" e refl h
  Change-closed (consume a p (inl e)) h = not_closed a _ "queued" e refl h
  Change-closed (consume a p (inr e)) h = not_closed a _ "resuming" e refl h

  Moves-closed :
      {k : Option String} {j : String} {m : Map String Row} {o p : Option Row} (a : Row)
      → Moves serde k j m o p
      → o ≡ some a
      → is_closed a.state ≡ true
      → p ≡ some a
  Moves-closed a absent h c = cc
  Moves-closed a (created w t f ps id hk free) h c = cc
  Moves-closed a (changed b d ch) h c =
      let same : b ≡ a = cc in
      let still : d ≡ b = Change-closed ch (rw same c) in ap (λ x. some x) (still ∙ same)

  -- An approval that is denied or consumed keeps its row whatever is called.
  pub run-closed :
      (cs : List Call) (s : State) (j : String) (a : Row)
      → get j s.approvals ≡ some a
      → is_closed a.state ≡ true
      → get j (run serde cs s).approvals ≡ some a
  unfolding run
  run-closed [] s j a h c = h
  run-closed (call ∷ cs) s j a h c =
      run-closed cs (step serde call s) j a (Moves-closed a (step-Keeps serde j call s) h c) c
