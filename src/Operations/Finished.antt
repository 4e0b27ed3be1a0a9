-- ===== src/Operations/Finished.antt =====
-- crates/store/src/lib.rs: what is read of an operation once it has a result.
use code_space.Prelude.{
  ℕ, String, ◌≡◌, refl, sym, ap, ◌∙◌, Bool, true, false, not, none, some, List, [], ◌∷◌, ◌++◌, ◌==◌,
  string_keyed, inl, inr, Bool-cases, arith, all, ==_iff, ==_refl,
}
use code_space.Domain.Error.{ok}
use code_space.Domain.Patch.{ApplyPatchResult, finished_event, OperationKind}
use code_space.Map.{get, get-insert}
use code_space.Operations.Ledger.{
  Ledger, Serde, Row, finish, finished_row, is_unfinished, into_stored, status_lookup,
  get_operation, row_events, to_status, finish_events, with_minted,
}
use code_space.Operations.Replays.{
  Call, begin_call, abandon_call, finish_call, step, run, Begun, same, added, begin-Begun,
  get-abandon, get-finish,
}

abbrev pub finishes : String → Call → Bool
finishes id (finish_call k result now) = k == id
finishes id _ = false

module _ (serde : Serde) where
  Begun-kept :
      {rows later : Ledger} (id : String) (a : Row)
      → Begun serde rows later
      → get id rows ≡ some a
      → get id later ≡ some a
  Begun-kept id a same h = h
  Begun-kept {rows = rows} id a (added key w f k now e free) h = elim (Bool-cases (k == id)) [
    | inr t ↦ rw (get-insert, t) h
    | inl t ↦
        let here : get id rows ≡ none = ap (λ x. get x rows) (sym ((==_iff k id).0 t)) ∙ e in cc
  ]

  step_kept :
      (c : Call) (rows : Ledger) (id : String) (a : Row)
      → get id rows ≡ some a
      → is_unfinished a ≡ false
      → finishes id c ≡ false
      → get id (step serde c rows) ≡ some a
  unfolding step
  step_kept (begin_call key w f k now) rows id a h u n =
      Begun-kept id a (begin-Begun serde key w f k now rows) h
  step_kept (abandon_call k) rows id a h u n = elim (Bool-cases (k == id)) [
    | inl t ↦ rw (get-abandon serde k id rows, t, h, u) refl
    | inr t ↦ rw (get-abandon serde k id rows, t) h
  ]
  step_kept (finish_call k result now) rows id a h u n =
      rw (get-finish serde k id result now rows, n) h

  run_kept :
      (cs : List Call) (rows : Ledger) (id : String) (a : Row)
      → get id rows ≡ some a
      → is_unfinished a ≡ false
      → all (λ c. not (finishes id c)) cs ≡ true
      → get id (run serde cs rows) ≡ some a
  unfolding run all
  run_kept [] rows id a h u n = h
  run_kept (c ∷ cs) rows id a h u n =
      run_kept cs (step serde c rows) id a (step_kept c rows id a h u (ground arith)) u
        (ground arith)

  -- What `finish` records is what every later lookup of the operation returns, until another
  -- `finish` of it and whatever is abandoned: the result's status, files and changes, the time, and
  -- the events with the end of the operation as the last one, where the JSON texts of the result and
  -- the events are read back as they were written and that of the events is not empty.
  pub status_lookup-finish :
      (later : List Call) (rows : Ledger) (id : String) (row : Row) (result : ApplyPatchResult)
      (now : ℕ)
      → get id rows ≡ some row
      → all (λ c. not (finishes id c)) later ≡ true
      → serde.result_from_str (serde.result_to_string result) ≡ some result
      → (serde.events_to_string (finish_events serde row result.status now) == "") ≡ false
      → serde.events_from_str (serde.events_to_string (finish_events serde row result.status now))
        ≡ some (finish_events serde row result.status now)
      → status_lookup serde (some id) none (run serde later (finish serde id result now rows).0)
        ≡ ok (record {
          operation_id = row.operation_id;
          status = result.status;
          replayed = false;
          kind = OperationKind.patch;
          workspace_id = row.workspace_id;
          created_at = row.created_at;
          finished_at = some now;
          files = result.files;
          changes = result.changes;
          events =
              with_minted row.created_at (row_events serde row)
              ++ (finished_event now result.status ∷ []);
        })
  unfolding status_lookup get_operation into_stored row_events to_status
  status_lookup-finish later rows id row result now h n back full read =
      let done : get id (finish serde id result now rows).0
          ≡ some (finished_row serde result now row) =
        rw (get-finish serde id id result now rows, ==_refl id, h) refl in
      let last : get id (run serde later (finish serde id result now rows).0)
          ≡ some (finished_row serde result now row) =
        run_kept later (finish serde id result now rows).0 id (finished_row serde result now row)
          done refl n in
      rw (status_lookup, get_operation, last, into_stored, back, row_events, full, read, to_status)
        refl
