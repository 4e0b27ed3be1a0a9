-- ===== src/Operations/Held.antt =====
-- crates/store/src/lib.rs: an operation keeps its request until it is abandoned.
use code_space.Prelude.{
  String, ◌≡◌, refl, sym, ap, ◌∙◌, true, false, not, Option, none, some, List, [], ◌∷◌, ◌==◌,
  string_keyed, inl, inr, Bool-cases, arith, all, ==_iff,
}
use code_space.Map.{get, get-insert}
use code_space.Operations.Ledger.{Ledger, Serde, Row, finished_row}
use code_space.Operations.Replays.{
  Call, begin_call, abandon_call, finish_call, step, run, abandons, Begun, same, added, begin-Begun,
  get-abandon, get-finish,
}

-- `b` is the operation of `a`, later.
pub record IsSame (a b : Row) : Type 0 where
  pub same_key : b.operation_key ≡ a.operation_key
  pub same_fingerprint : b.fingerprint ≡ a.fingerprint
  pub same_workspace : b.workspace_id ≡ a.workspace_id
  pub same_creation : b.created_at ≡ a.created_at

abbrev pub IsHeld : Row → Option Row → Type 0
IsHeld a o = (b : Row) × (o ≡ some b) × IsSame a b

IsSame-refl : (a : Row) → IsSame a a
IsSame-refl a = record {
  same_key = refl;
  same_fingerprint = refl;
  same_workspace = refl;
  same_creation = refl;
}

IsSame-trans : {a b c : Row} → IsSame a b → IsSame b c → IsSame a c
IsSame-trans x y = record {
  same_key = y.same_key ∙ x.same_key;
  same_fingerprint = y.same_fingerprint ∙ x.same_fingerprint;
  same_workspace = y.same_workspace ∙ x.same_workspace;
  same_creation = y.same_creation ∙ x.same_creation;
}

module _ (serde : Serde) where
  Begun-IsHeld :
      {rows later : Ledger} (id : String) (a : Row)
      → Begun serde rows later
      → get id rows ≡ some a
      → IsHeld a (get id later)
  Begun-IsHeld id a same h = (a, h, IsSame-refl a)
  Begun-IsHeld {rows = rows} id a (added key w f k now e free) h = elim (Bool-cases (k == id)) [
    | inr t ↦ rw (get-insert, t) (a, h, IsSame-refl a)
    | inl t ↦
        let here : get id rows ≡ none = ap (λ x. get x rows) (sym ((==_iff k id).0 t)) ∙ e in cc
  ]

  step-IsHeld :
      (c : Call) (rows : Ledger) (id : String) (a : Row)
      → get id rows ≡ some a
      → abandons id c ≡ false
      → IsHeld a (get id (step serde c rows))
  unfolding step
  step-IsHeld (begin_call key w f k now) rows id a h n =
      Begun-IsHeld id a (begin-Begun serde key w f k now rows) h
  step-IsHeld (abandon_call k) rows id a h n =
      rw (get-abandon serde k id rows, n, h) (a, refl, IsSame-refl a)
  step-IsHeld (finish_call k result now) rows id a h n =
      rw (get-finish serde k id result now rows, h)
        (elim (Bool-cases (k == id)) [
          | inr t ↦ rw t (a, refl, IsSame-refl a)
          | inl t ↦ rw t (
            finished_row serde result now a,
            refl,
            record {
              same_key = refl;
              same_fingerprint = refl;
              same_workspace = refl;
              same_creation = refl;
            },
          )
        ])

  pub run-IsHeld :
      (cs : List Call) (rows : Ledger) (id : String) (a : Row)
      → get id rows ≡ some a
      → all (λ c. not (abandons id c)) cs ≡ true
      → IsHeld a (get id (run serde cs rows))
  unfolding run all
  run-IsHeld [] rows id a h n = (a, h, IsSame-refl a)
  run-IsHeld (c ∷ cs) rows id a h n =
      let first : IsHeld a (get id (step serde c rows)) =
        step-IsHeld c rows id a h (ground arith) in
      let rest : IsHeld first.0 (get id (run serde cs (step serde c rows))) =
        run-IsHeld cs (step serde c rows) id first.0 first.1 (ground arith) in
      (rest.0, rest.1, IsSame-trans first.2 rest.2)
