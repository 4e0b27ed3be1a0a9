-- ===== src/Records/Lost.antt =====
-- crates/store/src/processes.rs: the records that wait for an operator once their runner was lost.
use mathlib.Core.Option
use code_space.Prelude.{
  ℕ, String, ◌≡◌, refl, sym, ap, ◌∙◌, Bool, true, false, not, Option, none, some, inl, inr,
  Bool-cases, Option-cases, arith, if◌then◌else◌, ◌==◌, ==_iff, string_keyed, List, [], ◌∷◌, all,
}
use code_space.Domain.Error.{ok, err}
use code_space.Map.{get, get-insert, get-update, get-map_values, holds, updated}
use code_space.Approvals.Types.{Serde}
use code_space.Approvals.Methods.{Outcome}
use code_space.Records.Types.{
  RunnerRef, ProcessPhase, ProcessLoss, ProcessRecord, NewProcessRecord, RootProcess, runner_beq,
}
use code_space.Records.Changes.{
  started, observed_output, ended, awaits_release, is_lost, start_phase,
}
use code_space.Records.Table.{
  Table, Records, dispatched, mark_first, insert_dispatched, record_dispatch, may_change,
  change_record, record_running, record_end, record_output, lose, is_open, is_unended,
  record_runner_lost, waits, release_record,
}
use code_space.Records.Runs.{
  Call, dispatches, runs, ends, reads, loses, releases, approves, step, run,
}

-- The calls that may end the wait of a record.
abbrev pub settles : String → Call → Bool
settles id (ends runner k e now) = k == id
settles id (releases k now) = k == id
settles id _ = false

abbrev pub IsWaiting : Option ProcessRecord → Type 0
IsWaiting o = holds awaits_release o ≡ true

waits_if :
    (o : Option ProcessRecord) (t : Bool) (p : ProcessRecord → Bool)
    (f : ProcessRecord → ProcessRecord)
    → ((r : ProcessRecord) → t ≡ true → awaits_release r ≡ true → awaits_release (f r) ≡ true)
    → IsWaiting o
    → IsWaiting (if t then Option.map (λ r. if p r then f r else r) o else o)
waits_if o false p f k h = h
waits_if none true p f k h = h
waits_if (some r) true p f k h = elim (Bool-cases (p r)) [
  | inl e ↦ rw e (k r refl h)
  | inr e ↦ rw e h
]

change_waits :
    (runner : RunnerRef) (id j : String) (f : ProcessRecord → ProcessRecord) (now : ℕ)
    (rows : Table)
    → ((r : ProcessRecord)
        → (id == j) ≡ true
        → awaits_release r ≡ true
        → awaits_release (f r) ≡ true)
    → IsWaiting (get j rows)
    → IsWaiting (get j (change_record runner id f now rows).0)
unfolding change_record awaits_release
change_waits runner id j f now rows k h =
    elim (Bool-cases (updated id (may_change runner f) rows)) [
      | inr t ↦ rw (change_record, t) h
      | inl t ↦
          rw
            (
              change_record,
              t,
              get-update id j (may_change runner f) (λ r. record (f r) { updated_at_ms = now })
                  rows,
            )
            (waits_if (get j rows) (id == j) (may_change runner f)
              (λ r. record (f r) { updated_at_ms = now }) k h)
    ]

start_lost : (p : ProcessPhase) → is_lost p ≡ true → is_lost (start_phase p) ≡ true
start_lost ProcessPhase.unknown h = refl
start_lost ProcessPhase.dispatching h = h
start_lost ProcessPhase.running h = h
start_lost ProcessPhase.terminal h = h

started_waits :
    (root : Option RootProcess) (d : Option ℕ) (r : ProcessRecord)
    → awaits_release r ≡ true
    → awaits_release (started root d r) ≡ true
unfolding awaits_release started
started_waits root d r h = ground (arith, start_lost r.phase)

lost_closed : (p : ProcessPhase) → is_lost p ≡ true → is_open p ≡ false
lost_closed ProcessPhase.unknown h = refl
lost_closed ProcessPhase.dispatching h = sym h
lost_closed ProcessPhase.running h = sym h
lost_closed ProcessPhase.terminal h = refl

lose_waits :
    (runner : RunnerRef) (loss : ProcessLoss) (now : ℕ) (o : Option ProcessRecord)
    → IsWaiting o
    → IsWaiting (Option.map (lose runner loss now) o)
unfolding awaits_release
lose_waits runner loss now none h = h
lose_waits runner loss now (some r) h =
    let closed : is_open r.phase ≡ false = lost_closed r.phase (ground arith) in
    let stays : is_unended runner r ≡ false = ground arith in rw stays h

waiting_row :
    (o : Option ProcessRecord)
    → IsWaiting o
    → (b : ProcessRecord) × (o ≡ some b) × (awaits_release b ≡ true)
waiting_row none h = cc
waiting_row (some b) h = (b, refl, h)

module _ (digest : List String → String) where
  insert_waits :
      (n : NewProcessRecord) (now : ℕ) (j : String) (s : Records) (o : Outcome Unit)
      → IsWaiting (get j s.processes)
      → IsWaiting (get j (insert_dispatched digest n now s o).0.processes)
  insert_waits n now j s (t, err e) h = h
  insert_waits n now j s (t, ok u) h = elim (Option-cases (get n.process_id s.processes)) [
    | inr (a, e) ↦ rw (insert_dispatched, e) h
    | inl e ↦
        rw (insert_dispatched, e, get-insert n.process_id j (dispatched digest n now) s.processes)
          (elim (Bool-cases (n.process_id == j)) [
            | inr t ↦ rw t h
            | inl t ↦
                let free : get j s.processes ≡ none =
                  ap (λ k. get k s.processes) (sym ((==_iff n.process_id j).0 t)) ∙ e in
                let never : holds awaits_release (get j s.processes) ≡ false = rw free refl in cc
          ])
  ]

module _ (digest : List String → String) (serde : Serde) where
  step_waits :
      (c : Call) (j : String) (s : Records)
      → settles j c ≡ false
      → IsWaiting (get j s.processes)
      → IsWaiting (get j (step digest serde c s).processes)
  unfolding step record_dispatch record_running record_end record_output record_runner_lost
      release_record observed_output awaits_release
  step_waits (dispatches n now) j s q h =
      insert_waits digest n now j s (mark_first n.approval_id s.approvals) h
  step_waits (runs runner id root d now) j s q h =
      change_waits runner id j (started root d) now s.processes (λ r t w. started_waits root d r w)
        h
  step_waits (ends runner id e now) j s q h =
      change_waits runner id j (ended e) now s.processes (λ r t w. cc) h
  step_waits (reads runner id cursor now) j s q h =
      change_waits runner id j (observed_output cursor) now s.processes (λ r t w. w) h
  step_waits (loses runner loss now) j s q h =
      rw (get-map_values (lose runner loss now) j s.processes)
        (lose_waits runner loss now (get j s.processes) h)
  step_waits (approves call) j s q h = h
  step_waits (releases id now) j s q h =
      rw
        (
          get-update id j waits (λ r. record r { released_at_ms = some now; updated_at_ms = now })
              s.processes,
          q,
        )
        h

  run_waits :
      (cs : List Call) (j : String) (s : Records)
      → all (λ c. not (settles j c)) cs ≡ true
      → IsWaiting (get j s.processes)
      → IsWaiting (get j (run digest serde cs s).processes)
  unfolding run all
  run_waits [] j s q h = h
  run_waits (c ∷ cs) j s q h =
      run_waits cs j (step digest serde c s) (ground arith) (step_waits c j s (ground arith) h)

  -- Once its runner is lost, a record that had neither ended nor been released waits for an
  -- operator, whatever is called except its release and the report of its end.
  pub record_runner_lost_waits :
      (lost : RunnerRef) (loss : ProcessLoss) (now : ℕ) (s : Records) (id : String)
      (r : ProcessRecord) (cs : List Call)
      → get id s.processes ≡ some r
      → runner_beq r.runner lost ≡ true
      → is_open r.phase ≡ true
      → r.released_at_ms ≡ none
      → all (λ c. not (settles id c)) cs ≡ true
      → (b : ProcessRecord) × (get id
            (run digest serde cs
              (record s { processes = (record_runner_lost lost loss now s.processes).0 })).processes
          ≡ some b)
        × (awaits_release b ≡ true)
  unfolding record_runner_lost awaits_release
  record_runner_lost_waits lost loss now s id r cs h same opened released q =
      let unended : is_unended lost r ≡ true = ground arith in
      let after : Records = record s {
        processes = (record_runner_lost lost loss now s.processes).0;
      } in
      let begins : IsWaiting (get id after.processes) =
        rw (get-map_values (lose lost loss now) id s.processes, h, unended, released) refl in
      waiting_row (get id (run digest serde cs after).processes) (run_waits cs id after q begins)
