-- ===== src/Records/Runs.antt =====
-- crates/store/src/processes.rs: sequences of calls on the processes table.
use mathlib.Core.Option
use code_space.Prelude.{
  ℕ, String, ◌≡◌, refl, sym, ap, subst, ◌∙◌, Bool, true, false, Option, none, some, inl, inr,
  Bool-cases, Option-cases, if◌then◌else◌, ◌==◌, ==_iff, string_keyed, List, [], ◌∷◌,
}
use code_space.Domain.Error.{ok, err}
use code_space.Map.{get, get-insert, get-update, get-map_values, update, updated}
use code_space.Approvals.Types.{Serde}
use code_space.Approvals.Methods.{Outcome}
use code_space.Approvals.Changes.{Call as Approval, step as approval_step}
use code_space.Records.Types.{
  RunnerRef, ProcessLoss, ProcessEnd, ProcessRecord, NewProcessRecord, RootProcess,
}
use code_space.Records.Changes.{started, observed_output, ended}
use code_space.Records.Table.{
  Table, Records, dispatched, mark_first, insert_dispatched, record_dispatch, may_change,
  change_record, record_running, record_end, record_output, lose, record_runner_lost, waits,
  release_record,
}
use code_space.Records.Progress.{IsLater, IsSound, IsKept, IsLater-refl, IsLater-trans}
use code_space.Records.Sound.{
  started-IsKept, observed_output-IsKept, ended-IsKept, touched, lose-IsKept, release-IsKept,
}

-- The calls on the processes table, and those on the approvals that a dispatch can resume.
pub data Call : Type 0 where
  dispatches : NewProcessRecord → ℕ → Call
  runs : RunnerRef → String → Option RootProcess → Option ℕ → ℕ → Call
  ends : RunnerRef → String → ProcessEnd → ℕ → Call
  reads : RunnerRef → String → ℕ → ℕ → Call
  loses : RunnerRef → ProcessLoss → ℕ → Call
  releases : String → ℕ → Call
  approves : Approval → Call

-- What a call does to the value at a key: a sound record is kept, and a new one is sound.
pub data Moves : Option ProcessRecord → Option ProcessRecord → Type 0 where
  absent : Moves none none
  made : (b : ProcessRecord) → IsSound b → Moves none (some b)
  kept : (a b : ProcessRecord) → (IsSound a → IsKept a b) → Moves (some a) (some b)

Moves-refl : (o : Option ProcessRecord) → Moves o o
Moves-refl none = absent
Moves-refl (some a) = kept a a (λ h. (IsLater-refl a, h))

Moves-if :
    (o : Option ProcessRecord) (t : Bool) (p : ProcessRecord → Bool)
    (f : ProcessRecord → ProcessRecord)
    → ((r : ProcessRecord) → p r ≡ true → IsSound r → IsKept r (f r))
    → Moves o (if t then Option.map (λ r. if p r then f r else r) o else o)
Moves-if o false p f h = Moves-refl o
Moves-if none true p f h = absent
Moves-if (some r) true p f h = elim (Bool-cases (p r)) [
  | inl e ↦ rw e (kept r (f r) (h r e))
  | inr e ↦ rw e (Moves-refl (some r))
]

Moves-update :
    (id j : String) (p : ProcessRecord → Bool) (f : ProcessRecord → ProcessRecord) (rows : Table)
    → ((r : ProcessRecord) → p r ≡ true → IsSound r → IsKept r (f r))
    → Moves (get j rows) (get j (update id p f rows))
Moves-update id j p f rows h = rw (get-update id j p f rows) (Moves-if (get j rows) (id == j) p f h)

change-Moves :
    (runner : RunnerRef) (id j : String) (f : ProcessRecord → ProcessRecord) (now : ℕ)
    (rows : Table)
    → ((r : ProcessRecord) → IsSound r → IsKept r (f r))
    → Moves (get j rows) (get j (change_record runner id f now rows).0)
unfolding change_record
change-Moves runner id j f now rows h = elim (Bool-cases (updated id (may_change runner f) rows)) [
  | inr t ↦ rw (change_record, t) (Moves-refl (get j rows))
  | inl t ↦
      rw (change_record, t)
        (Moves-update id j (may_change runner f) (λ r. record (f r) { updated_at_ms = now }) rows
          (λ r e s. touched r (f r) now (h r s)))
]

lost-Moves :
    (runner : RunnerRef) (loss : ProcessLoss) (now : ℕ) (o : Option ProcessRecord)
    → Moves o (Option.map (lose runner loss now) o)
lost-Moves runner loss now none = absent
lost-Moves runner loss now (some r) =
    kept r (lose runner loss now r) (lose-IsKept runner loss now r)

abbrev pub IsSoundAt : Option ProcessRecord → Type 0
IsSoundAt none = Unit
IsSoundAt (some a) = IsSound a

Moves-IsSound : {o p : Option ProcessRecord} → Moves o p → IsSoundAt o → IsSoundAt p
Moves-IsSound absent h = tt
Moves-IsSound (made b s) h = s
Moves-IsSound (kept a b k) h = (k h).1

Moves-IsLater :
    {o p : Option ProcessRecord} (a : ProcessRecord)
    → Moves o p
    → o ≡ some a
    → IsSound a
    → (b : ProcessRecord) × (p ≡ some b) × IsKept a b
Moves-IsLater a absent h s = cc
Moves-IsLater a (made b t) h s = cc
Moves-IsLater a (kept c b k) h s =
    let same : c ≡ a = cc in
    (b, refl, subst (λ x. IsKept x b) same (k (subst (λ x. IsSound x) (sym same) s)))

module _ (digest : List String → String) where
  insert-Moves :
      (n : NewProcessRecord) (now : ℕ) (j : String) (s : Records) (o : Outcome Unit)
      → Moves (get j s.processes) (get j (insert_dispatched digest n now s o).0.processes)
  insert-Moves n now j s (t, err e) = Moves-refl (get j s.processes)
  insert-Moves n now j s (t, ok u) = elim (Option-cases (get n.process_id s.processes)) [
    | inr (a, e) ↦ rw (insert_dispatched, e) (Moves-refl (get j s.processes))
    | inl e ↦
        rw (insert_dispatched, e, get-insert n.process_id j (dispatched digest n now) s.processes)
          (elim (Bool-cases (n.process_id == j)) [
            | inr t ↦ rw t (Moves-refl (get j s.processes))
            | inl t ↦
                let free : get j s.processes ≡ none =
                  ap (λ k. get k s.processes) (sym ((==_iff n.process_id j).0 t)) ∙ e in
                rw (t, free)
                  (made (dispatched digest n now) (record { blank = inr refl; reason = inl refl }))
          ])
  ]

module _ (digest : List String → String) (serde : Serde) where
  unfoldable pub step : Call → Records → Records
  step (dispatches n now) s = (record_dispatch digest n now s).0
  step (runs runner id root d now) s = record s {
    processes = (record_running runner id root d now s.processes).0;
  }
  step (ends runner id e now) s = record s {
    processes = (record_end runner id e now s.processes).0;
  }
  step (reads runner id cursor now) s = record s {
    processes = (record_output runner id cursor now s.processes).0;
  }
  step (loses runner loss now) s = record s {
    processes = (record_runner_lost runner loss now s.processes).0;
  }
  step (approves call) s = record s { approvals = approval_step serde call s.approvals }
  step (releases id now) s = record s { processes = (release_record id now s.processes).0 }

  unfoldable pub run : List Call → Records → Records
  run [] s = s
  run (c ∷ cs) s = run cs (step c s)

  step-Moves :
      (c : Call) (j : String) (s : Records) → Moves (get j s.processes) (get j (step c s).processes)
  unfolding step record_dispatch record_running record_end record_output record_runner_lost
      release_record
  step-Moves (dispatches n now) j s =
      insert-Moves digest n now j s (mark_first n.approval_id s.approvals)
  step-Moves (runs runner id root d now) j s =
      change-Moves runner id j (started root d) now s.processes (started-IsKept root d)
  step-Moves (ends runner id e now) j s =
      change-Moves runner id j (ended e) now s.processes (ended-IsKept e)
  step-Moves (reads runner id cursor now) j s =
      change-Moves runner id j (observed_output cursor) now s.processes
        (observed_output-IsKept cursor)
  step-Moves (loses runner loss now) j s =
      rw (get-map_values (lose runner loss now) j s.processes)
        (lost-Moves runner loss now (get j s.processes))
  step-Moves (approves call) j s = Moves-refl (get j s.processes)
  step-Moves (releases id now) j s =
      Moves-update id j waits (λ r. record r { released_at_ms = some now; updated_at_ms = now })
        s.processes (release-IsKept now)

  pub run-IsSound :
      (cs : List Call) (s : Records) (j : String)
      → IsSoundAt (get j s.processes)
      → IsSoundAt (get j (run cs s).processes)
  unfolding run
  run-IsSound [] s j h = h
  run-IsSound (c ∷ cs) s j h = run-IsSound cs (step c s) j (Moves-IsSound (step-Moves c j s) h)

  pub run-IsLater :
      (cs : List Call) (s : Records) (j : String) (a : ProcessRecord)
      → get j s.processes ≡ some a
      → IsSound a
      → (b : ProcessRecord) × (get j (run cs s).processes ≡ some b) × IsLater a b
  unfolding run
  run-IsLater [] s j a h k = (a, h, IsLater-refl a)
  run-IsLater (c ∷ cs) s j a h k =
      let first : (b : ProcessRecord) × (get j (step c s).processes ≡ some b) × IsKept a b =
        Moves-IsLater a (step-Moves c j s) h k in
      let rest : (d : ProcessRecord) × (get j (run cs (step c s)).processes ≡ some d)
          × IsLater first.0 d =
        run-IsLater cs (step c s) j first.0 first.1 first.2.1 in
      (rest.0, rest.1, IsLater-trans first.2.0 rest.2)
