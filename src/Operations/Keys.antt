-- ===== src/Operations/Keys.antt =====
-- crates/store/src/lib.rs: no two operations have the same key.
use mathlib.Core.Option
use code_space.Prelude.{
  ℕ, String, ◌≡◌, refl, sym, ap, ◌∙◌, Bool, true, false, not, Option, none, some, List, [], ◌∷◌,
  ◌==◌, string_keyed, option_beq, option_beq_iff, inl, inr, ◌⊎◌, Bool-cases, Option-cases,
  if◌then◌else◌, arith, ==_iff, ==_refl,
}
use code_space.Domain.Patch.{ApplyPatchResult}
use code_space.Map.{get, find, find-some, find-none, keep, get-insert}
use code_space.Operations.Ledger.{
  Ledger, Serde, Row, begin_row, finished_row, is_unfinished, has_key, load_by_key,
}
use code_space.Operations.Replays.{
  Call, begin_call, abandon_call, finish_call, step, run, IsFree, Begun, same, added, begin-Begun,
  get-abandon, get-finish,
}

abbrev pub shared_key : Option String → Option String → Bool
shared_key (some a) (some b) = a == b
shared_key _ _ = false

abbrev pub shares : Option Row → Option Row → Bool
shares (some a) (some b) = shared_key a.operation_key b.operation_key
shares _ _ = false

abbrev pub IsUnique : Ledger → Type 0
IsUnique rows = (i j : String) → (i ≡ j) ⊎ (shares (get i rows) (get j rows) ≡ false)

abbrev IsApart : Option String → Option String → Type 0
IsApart a b = (shared_key a b ≡ false) × (shared_key b a ≡ false)

IsApart-none : (a : Option String) → IsApart a none
IsApart-none none = (refl, refl)
IsApart-none (some k) = (refl, refl)

IsApart-some : (a : Option String) (k : String) → option_beq a (some k) ≡ false → IsApart a (some k)
IsApart-some none k h = (refl, refl)
IsApart-some (some x) k h = (h, ground (arith, ==_iff x k, ==_iff k x))

-- No row shares a key that none is found for.
IsFree-IsApart :
    (rows : Ledger) (key : Option String) (j : String) (b : Row)
    → IsFree key rows
    → get j rows ≡ some b
    → IsApart b.operation_key key
unfolding load_by_key
IsFree-IsApart rows none j b free h = IsApart-none b.operation_key
IsFree-IsApart rows (some k) j b free h =
    IsApart-some b.operation_key k (find-none (has_key k) j b rows free h)

free_left :
    (rows : Ledger) (j : String) (r : Row)
    → IsFree r.operation_key rows
    → shares (get j rows) (some r) ≡ false
free_left rows j r free = elim (Option-cases (get j rows)) [
  | inl n ↦ rw n refl
  | inr (b, n) ↦ rw n (IsFree-IsApart rows r.operation_key j b free n).0
]

free_right :
    (rows : Ledger) (j : String) (r : Row)
    → IsFree r.operation_key rows
    → shares (some r) (get j rows) ≡ false
free_right rows j r free = elim (Option-cases (get j rows)) [
  | inl n ↦ rw n refl
  | inr (b, n) ↦ rw n (IsFree-IsApart rows r.operation_key j b free n).1
]

keep-shares :
    (t u : Bool) (o p : Option Row)
    → shares o p ≡ false
    → shares
        (if t then keep (λ r. not (is_unfinished r)) o else o)
        (if u then keep (λ r. not (is_unfinished r)) p else p)
      ≡ false
keep-shares t u none p h = ground arith
keep-shares t u (some a) none h = ground arith
keep-shares t u (some a) (some b) h = ground arith

finish-shares :
    (serde : Serde) (result : ApplyPatchResult) (now : ℕ) (t u : Bool) (o p : Option Row)
    → shares o p ≡ false
    → shares
        (if t then Option.map (finished_row serde result now) o else o)
        (if u then Option.map (finished_row serde result now) p else p)
      ≡ false
finish-shares serde result now true true none p h = refl
finish-shares serde result now t u o p h = ground arith

module _ (serde : Serde) where
  Begun-IsUnique : {rows later : Ledger} → Begun serde rows later → IsUnique rows → IsUnique later
  Begun-IsUnique same h i j = h i j
  Begun-IsUnique {rows = rows} (added key w f k now e free) h i j =
      rw
        (
          get-insert k i (begin_row serde key w f k now) rows,
          get-insert k j (begin_row serde key w f k now) rows,
        )
        (elim (Bool-cases (k == i)) [
          | inl t ↦ elim (Bool-cases (k == j)) [
            | inl u ↦ inl (sym ((==_iff k i).0 t) ∙ (==_iff k j).0 u)
            | inr u ↦ rw (t, u) (inr (free_right rows j (begin_row serde key w f k now) free))
          ]
          | inr t ↦ elim (Bool-cases (k == j)) [
            | inl u ↦ rw (t, u) (inr (free_left rows i (begin_row serde key w f k now) free))
            | inr u ↦ rw (t, u) (h i j)
          ]
        ])

  pub step-IsUnique : (c : Call) (rows : Ledger) → IsUnique rows → IsUnique (step serde c rows)
  unfolding step
  step-IsUnique (begin_call key w f k now) rows h i j =
      Begun-IsUnique (begin-Begun serde key w f k now rows) h i j
  step-IsUnique (abandon_call k) rows h i j =
      rw (get-abandon serde k i rows, get-abandon serde k j rows)
        (elim (h i j) [
          | inl e ↦ inl e
          | inr e ↦ inr (keep-shares (k == i) (k == j) (get i rows) (get j rows) e)
        ])
  step-IsUnique (finish_call k result now) rows h i j =
      rw (get-finish serde k i result now rows, get-finish serde k j result now rows)
        (elim (h i j) [
          | inl e ↦ inl e
          | inr e ↦
              inr (finish-shares serde result now (k == i) (k == j) (get i rows) (get j rows) e)
        ])

  pub run-IsUnique : (cs : List Call) (rows : Ledger) → IsUnique rows → IsUnique (run serde cs rows)
  unfolding run
  run-IsUnique [] rows h = h
  run-IsUnique (c ∷ cs) rows h = run-IsUnique cs (step serde c rows) (step-IsUnique c rows h)

  -- Whatever is called on an empty ledger, no two operations have the same key.
  pub run-empty-IsUnique : (cs : List Call) → IsUnique (run serde cs [])
  unfolding get
  run-empty-IsUnique cs = run-IsUnique cs [] (λ i j. inr refl)

  -- The one operation with a key is the one that is found for it.
  pub load_by_key_held :
      (key id : String) (row : Row) (rows : Ledger)
      → IsUnique rows
      → get id rows ≡ some row
      → row.operation_key ≡ some key
      → load_by_key key rows ≡ some row
  unfolding load_by_key
  load_by_key_held key id row rows h g e = elim (Option-cases (find (has_key key) rows)) [
    | inl n ↦
        let fails : has_key key row ≡ false = find-none (has_key key) id row rows n g in
        let holds_key : has_key key row ≡ true =
          (option_beq_iff row.operation_key (some key)).1 e in
        cc
    | inr (v, n) ↦
        let at : (k : String) × (get k rows ≡ some v) × (has_key key v ≡ true) =
          find-some (has_key key) v rows n in
        elim (h at.0 id) [
          | inl q ↦ let here : get id rows ≡ some v = ap (λ k. get k rows) (sym q) ∙ at.1 in cc
          | inr apart ↦
              let v_key : v.operation_key ≡ some key =
                (option_beq_iff v.operation_key (some key)).0 at.2 in
              let together : shares (get at.0 rows) (get id rows) ≡ true =
                rw (at.1, g, v_key, e) (==_refl key) in
              cc
        ]
  ]
