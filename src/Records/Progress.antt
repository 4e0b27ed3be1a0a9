-- ===== src/Records/Progress.antt =====
-- crates/store/src/processes.rs: what no change takes back from a record.
use code_space.Prelude.{
  ℕ, ℤ, suc, ◌≤◌, ◌≡◌, refl, sym, ◌∙◌, true, false, Option, none, some, ◌⊎◌, inl, inr, Bool-cases,
  arith, is_some,
}
use code_space.Records.Types.{
  ProcessPhase, dispatching, running, terminal, ProcessLoss, ProcessOutcome, ProcessTermination,
  ProcessEnd, ProcessRecord, RootProcess,
}
use code_space.Records.Changes.{
  is_dispatching, is_terminal, is_lost, start_phase, started, observed_output, further, ended,
  is_not_started, with_outcome, with_total,
}

abbrev pub reached : Option ℕ → ℕ
reached none = 0
reached (some cursor) = suc cursor

-- `b` is the record of `a`, later: how it ended and when it was released stand, it does not begin
-- again, its output cursor does not fall, and it is of the same runner, workspace and approval.
pub record IsLater (a b : ProcessRecord) : Type 0 where
  pub outcome_kept :
      (a.outcome ≡ none)
      ⊎ ((b.outcome ≡ a.outcome) × (b.exit_code ≡ a.exit_code) × (b.signal ≡ a.signal))
  pub end_kept : (is_terminal a.phase ≡ false) ⊎ (is_terminal b.phase ≡ true)
  pub release_kept : (a.released_at_ms ≡ none) ⊎ (b.released_at_ms ≡ a.released_at_ms)
  pub cursor : reached a.output_cursor ≤ reached b.output_cursor
  pub same_runner : b.runner ≡ a.runner
  pub same_workspace : b.workspace_id ≡ a.workspace_id
  pub same_approval : b.approval_id ≡ a.approval_id

-- Only an ended record says how it ended, and one whose runner was lost says why.
pub record IsSound (a : ProcessRecord) : Type 0 where
  pub blank : (is_terminal a.phase ≡ true) ⊎ (a.outcome ≡ none)
  pub reason : (is_lost a.phase ≡ false) ⊎ (is_some a.lost ≡ true)

abbrev pub IsKept : ProcessRecord → ProcessRecord → Type 0
IsKept a b = IsLater a b × IsSound b

end_trans :
    (p q r : ProcessPhase)
    → (is_terminal p ≡ false) ⊎ (is_terminal q ≡ true)
    → (is_terminal q ≡ false) ⊎ (is_terminal r ≡ true)
    → (is_terminal p ≡ false) ⊎ (is_terminal r ≡ true)
end_trans p q r (inl h) k = inl h
end_trans p q r (inr h) (inl k) = cc
end_trans p q r (inr h) (inr k) = inr k

outcome_trans :
    (a b c : ProcessRecord)
    → (a.outcome ≡ none)
      ⊎ ((b.outcome ≡ a.outcome) × (b.exit_code ≡ a.exit_code) × (b.signal ≡ a.signal))
    → (b.outcome ≡ none)
      ⊎ ((c.outcome ≡ b.outcome) × (c.exit_code ≡ b.exit_code) × (c.signal ≡ b.signal))
    → (a.outcome ≡ none)
      ⊎ ((c.outcome ≡ a.outcome) × (c.exit_code ≡ a.exit_code) × (c.signal ≡ a.signal))
outcome_trans a b c (inl h) k = inl h
outcome_trans a b c (inr (h, h', h'')) (inl k) = inl (sym h ∙ k)
outcome_trans a b c (inr (h, h', h'')) (inr (k, k', k'')) = inr (k ∙ h, k' ∙ h', k'' ∙ h'')

release_trans :
    {a b c : Option ℕ} → (a ≡ none) ⊎ (b ≡ a) → (b ≡ none) ⊎ (c ≡ b) → (a ≡ none) ⊎ (c ≡ a)
release_trans (inl h) k = inl h
release_trans (inr h) (inl k) = inl (sym h ∙ k)
release_trans (inr h) (inr k) = inr (k ∙ h)

pub IsLater-trans : {a b c : ProcessRecord} → IsLater a b → IsLater b c → IsLater a c
IsLater-trans {a = a} {b = b} {c = c} x y = record {
  outcome_kept = outcome_trans a b c x.outcome_kept y.outcome_kept;
  end_kept = end_trans a.phase b.phase c.phase x.end_kept y.end_kept;
  release_kept = release_trans x.release_kept y.release_kept;
  cursor = omega (arith, x.cursor, y.cursor);
  same_runner = y.same_runner ∙ x.same_runner;
  same_workspace = y.same_workspace ∙ x.same_workspace;
  same_approval = y.same_approval ∙ x.same_approval;
}

-- A change that leaves the outcome, the release and the origin alone.
pub IsLater-progress :
    (a : ProcessRecord) (p : ProcessPhase) (d : Option ℕ) (root : Option RootProcess)
    (cursor : Option ℕ) (now : ℕ) (lost : Option ProcessLoss)
    → (is_terminal a.phase ≡ false) ⊎ (is_terminal p ≡ true)
    → reached a.output_cursor ≤ reached cursor
    → IsLater a (record a {
      phase = p;
      deadline_at_ms = d;
      root = root;
      output_cursor = cursor;
      updated_at_ms = now;
      lost = lost;
    })
IsLater-progress a p d root cursor now lost h k = record {
  outcome_kept = inr (refl, refl, refl);
  end_kept = h;
  release_kept = inr refl;
  cursor = k;
  same_runner = refl;
  same_workspace = refl;
  same_approval = refl;
}

stays_ended : (p : ProcessPhase) → (is_terminal p ≡ false) ⊎ (is_terminal p ≡ true)
stays_ended terminal = inr refl
stays_ended dispatching = inl refl
stays_ended running = inl refl
stays_ended ProcessPhase.unknown = inl refl

pub IsLater-refl : (a : ProcessRecord) → IsLater a a
IsLater-refl a =
    IsLater-progress a a.phase a.deadline_at_ms a.root a.output_cursor a.updated_at_ms a.lost
      (stays_ended a.phase) (omega arith)

reached-further : (o : Option ℕ) (cursor : ℕ) → reached o ≤ reached (further o cursor)
reached-further none cursor = omega arith
reached-further (some seen) cursor = ground arith

start_ended : (p : ProcessPhase) → (is_terminal p ≡ false) ⊎ (is_terminal (start_phase p) ≡ true)
start_ended terminal = inr refl
start_ended dispatching = inl refl
start_ended running = inl refl
start_ended ProcessPhase.unknown = inl refl

pub started-IsLater :
    (root : Option RootProcess) (d : Option ℕ) (a : ProcessRecord) → IsLater a (started root d a)
unfolding started
started-IsLater root d a =
    IsLater-progress a (start_phase a.phase) _ _ a.output_cursor a.updated_at_ms a.lost
      (start_ended a.phase) (omega arith)

pub observed_output-IsLater :
    (cursor : ℕ) (a : ProcessRecord) → IsLater a (observed_output cursor a)
unfolding observed_output
observed_output-IsLater cursor a =
    IsLater-progress a a.phase a.deadline_at_ms a.root _ a.updated_at_ms a.lost
      (stays_ended a.phase) (reached-further a.output_cursor cursor)

with_outcome-IsLater :
    (o : Option ProcessOutcome) (t : Option ProcessTermination) (e s : Option ℤ) (a : ProcessRecord)
    → a.outcome ≡ o
    → IsLater a (with_outcome o t e s (record a { phase = terminal }))
with_outcome-IsLater (some x) t e s a h =
    IsLater-progress a terminal a.deadline_at_ms a.root a.output_cursor a.updated_at_ms a.lost
      (inr refl) (omega arith)
with_outcome-IsLater none none e s a h =
    IsLater-progress a terminal a.deadline_at_ms a.root a.output_cursor a.updated_at_ms a.lost
      (inr refl) (omega arith)
with_outcome-IsLater none (some t) e s a h = record {
  outcome_kept = inl h;
  end_kept = inr refl;
  release_kept = inr refl;
  cursor = omega arith;
  same_runner = refl;
  same_workspace = refl;
  same_approval = refl;
}

with_total-IsLater :
    (total : Option ℕ) (a r : ProcessRecord) → IsLater a r → IsLater a (with_total total r)
with_total-IsLater none a r h = h
with_total-IsLater (some total) a r h = IsLater-trans h (observed_output-IsLater total r)

not_terminal : (p : ProcessPhase) → is_dispatching p ≡ true → is_terminal p ≡ false
not_terminal dispatching h = refl
not_terminal running h = refl
not_terminal terminal h = sym h
not_terminal ProcessPhase.unknown h = refl

pub ended-IsLater : (e : ProcessEnd) (a : ProcessRecord) → IsSound a → IsLater a (ended e a)
unfolding ended
ended-IsLater ProcessEnd.not_started a h = elim (Bool-cases (is_dispatching a.phase)) [
  | inr t ↦ rw (ended, t) (IsLater-refl a)
  | inl t ↦
      rw (ended, t)
        (record {
          outcome_kept = elim h.blank [
            | inl x ↦ let y : is_terminal a.phase ≡ false = not_terminal a.phase t in cc
            | inr e ↦ inl e
          ];
          end_kept = inr refl;
          release_kept = inr refl;
          cursor = omega arith;
          same_runner = refl;
          same_workspace = refl;
          same_approval = refl;
        })
]
ended-IsLater (ProcessEnd.ended t e s total) a h = elim (Bool-cases (is_not_started a.outcome)) [
  | inl n ↦ rw (ended, n) (IsLater-refl a)
  | inr n ↦
      rw (ended, n) (with_total-IsLater total a _ (with_outcome-IsLater a.outcome t e s a refl))
]
