-- ===== src/Operations/Answers.antt =====
-- crates/store/src/lib.rs: what `begin` answers for a key that has begun an operation.
use code_space.Prelude.{
  ℕ, String, ◌≡◌, refl, sym, ap, ◌∙◌, Bool, true, false, not, some, List, [], ◌==◌, string_keyed,
  inl, inr, ◌≢◌, Option-cases, if◌then◌else◌, all, ==_refl,
}
use code_space.Domain.Error.{ok, err}
use code_space.Map.{get, get-insert}
use code_space.Operations.Ledger.{
  Ledger, Serde, Row, Begin, begin, begin_row, begin_fresh, answer, key_conflict, sql_err,
  load_by_key, into_stored,
}
use code_space.Operations.Replays.{Call, begin_call, step, run, abandons}
use code_space.Operations.Held.{IsHeld, run-IsHeld}
use code_space.Operations.Keys.{
  IsUnique, run-IsUnique, step-IsUnique, run-empty-IsUnique, load_by_key_held,
}

-- An answer from another row mints nothing.
answer_old :
    (serde : Serde) (row : Row) (fingerprint id : String) (t : Bool)
    → (if t then ok (Begin.replayed (into_stored serde row true)) else err key_conflict)
      ≢ ok (Begin.fresh id)
answer_old serde row fingerprint id true h = cc
answer_old serde row fingerprint id false h = cc

module _ (serde : Serde) where
  minted_row :
      (key w f id : String) (now : ℕ) (rows : Ledger)
      → (begin serde (some key) w f id now rows).1 ≡ ok (Begin.fresh id)
      → get id (begin serde (some key) w f id now rows).0
        ≡ some (begin_row serde (some key) w f id now)
  unfolding begin
  minted_row key w f id now rows h = elim (Option-cases (load_by_key key rows)) [
    | inr (row, e) ↦
        let old : (begin serde (some key) w f id now rows).1 ≡ answer serde row f =
          rw (begin, e) refl in
        absurd (answer_old serde row f id (row.fingerprint == f) (sym old ∙ h))
    | inl e ↦ elim (Option-cases (get id rows)) [
      | inr (row, g) ↦
          let old : (begin serde (some key) w f id now rows).1 ≡ err sql_err =
            rw (begin, e, begin_fresh, g) refl in
          cc
      | inl g ↦ rw (begin, e, begin_fresh, g, get-insert, ==_refl id) refl
    ]
  ]

  -- Where `begin` with a key mints an operation, then every later `begin` with that key is answered
  -- from it, until the operation is abandoned: the same request is replayed, another one refused, and
  -- neither changes the ledger.
  pub begin-begin :
      (past later : List Call) (key workspace_id fingerprint id : String) (now : ℕ)
      (again_workspace_id again again_id : String) (again_now : ℕ)
      → (begin serde (some key) workspace_id fingerprint id now (run serde past [])).1
        ≡ ok (Begin.fresh id)
      → all (λ c. not (abandons id c)) later ≡ true
      → (row : Row) × (get id (
            run serde later
              (begin serde (some key) workspace_id fingerprint id now (run serde past [])).0)
          ≡ some row)
        × (begin serde (some key) again_workspace_id again again_id again_now (
              run serde later
                (begin serde (some key) workspace_id fingerprint id now (run serde past [])).0)
            ≡ (
              run serde later
                  (begin serde (some key) workspace_id fingerprint id now (run serde past [])).0,
              if fingerprint == again
                  then ok (Begin.replayed (into_stored serde row true))
                  else err key_conflict,
            ))
  unfolding begin step
  begin-begin past later key w f id now w' f' id' now' h n =
      let first : Ledger = (begin serde (some key) w f id now (run serde past [])).0 in
      let rows : Ledger = run serde later first in
      let held : IsHeld (begin_row serde (some key) w f id now) (get id rows) =
        run-IsHeld serde later first id (begin_row serde (some key) w f id now)
          (minted_row key w f id now (run serde past []) h) n in
      let unique : IsUnique rows = run-IsUnique serde later first (
        step-IsUnique serde (begin_call (some key) w f id now) (run serde past [])
          (run-empty-IsUnique serde past)) in
      let found : load_by_key key rows ≡ some held.0 =
        load_by_key_held serde key id held.0 rows unique held.1 held.2.same_key in
      let replays : begin serde (some key) w' f' id' now' rows ≡ (rows, answer serde held.0 f') =
        rw (begin, found) refl in
      (
        held.0,
        held.1,
        replays
            ∙ ap
                (λ x. (
                  rows,
                  if x == f'
                      then ok (Begin.replayed (into_stored serde held.0 true))
                      else err key_conflict,
                ))
                held.2.same_fingerprint,
      )
