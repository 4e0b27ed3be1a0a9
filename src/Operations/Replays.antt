-- ===== src/Operations/Replays.antt =====
-- crates/store/src/lib.rs: an operation key begins one operation, and every later `begin` with it is
-- answered from that one.
use mathlib.Core.Option
use code_space.Prelude.{
  ℕ, String, ◌≡◌, refl, sym, ap, subst, ◌∙◌, Bool, true, false, not, Option, none, some, List, [],
  ◌∷◌, ◌==◌, string_keyed, inl, inr, Bool-cases, Option-cases, if◌then◌else◌, ==_iff,
}
use code_space.Domain.Patch.{ApplyPatchResult}
use code_space.Map.{get, insert, keep, holds, get-remove, get-update}
use code_space.Operations.Ledger.{
  Ledger, Serde, Row, begin, begin_row, begin_fresh, abandon, finish, finished_row, is_unfinished,
  load_by_key,
}

pub data Call : Type 0 where
  begin_call : Option String → String → String → String → ℕ → Call
  abandon_call : String → Call
  finish_call : String → ApplyPatchResult → ℕ → Call

unfoldable pub step : Serde → Call → Ledger → Ledger
step serde (begin_call key workspace_id fingerprint id now) rows =
    (begin serde key workspace_id fingerprint id now rows).0
step serde (abandon_call id) rows = (abandon id rows).0
step serde (finish_call id result now) rows = (finish serde id result now rows).0

unfoldable pub run : Serde → List Call → Ledger → Ledger
run serde [] rows = rows
run serde (c ∷ cs) rows = run serde cs (step serde c rows)

abbrev pub abandons : String → Call → Bool
abandons id (abandon_call k) = k == id
abandons id _ = false

abbrev pub IsFree : Option String → Ledger → Type 0
IsFree none rows = Unit
IsFree (some key) rows = load_by_key key rows ≡ none

keep-none :
    (o : Option Row) → holds is_unfinished o ≡ true → keep (λ r. not (is_unfinished r)) o ≡ none
keep-none none h = refl
keep-none (some r) h = rw h refl

keep-all :
    (o : Option Row) → holds is_unfinished o ≡ false → keep (λ r. not (is_unfinished r)) o ≡ o
keep-all none h = refl
keep-all (some r) h = rw h refl

module _ (serde : Serde) where
  -- What `begin` does to the ledger.
  pub data Begun (rows : Ledger) : Ledger → Type 0 where
    same : Begun rows rows
    added :
        (key : Option String) (workspace_id fingerprint id : String) (now : ℕ)
        → get id rows ≡ none
        → IsFree key rows
        → Begun rows (insert id (begin_row serde key workspace_id fingerprint id now) rows)

  begin_fresh-Begun :
      (key : Option String) (w f id : String) (now : ℕ) (rows : Ledger)
      → IsFree key rows
      → Begun rows (begin_fresh serde key w f id now rows).0
  begin_fresh-Begun key w f id now rows free = elim (Option-cases (get id rows)) [
    | inl e ↦ rw (begin_fresh, e) (added key w f id now e free)
    | inr (row, e) ↦ rw (begin_fresh, e) same
  ]

  pub begin-Begun :
      (key : Option String) (w f id : String) (now : ℕ) (rows : Ledger)
      → Begun rows (begin serde key w f id now rows).0
  unfolding begin
  begin-Begun none w f id now rows = begin_fresh-Begun none w f id now rows tt
  begin-Begun (some key) w f id now rows = elim (Option-cases (load_by_key key rows)) [
    | inl e ↦ rw (begin, e) (begin_fresh-Begun (some key) w f id now rows e)
    | inr (row, e) ↦ rw (begin, e) same
  ]

  pub get-abandon :
      (id j : String) (rows : Ledger)
      → get j (abandon id rows).0
        ≡ (if id == j then keep (λ r. not (is_unfinished r)) (get j rows) else get j rows)
  unfolding abandon
  get-abandon id j rows = elim (Bool-cases (holds is_unfinished (get id rows))) [
    | inl t ↦
        rw (abandon, t, get-remove)
          (elim (Bool-cases (id == j)) [
            | inr d ↦ rw d refl
            | inl d ↦
                let same : id ≡ j = (==_iff id j).0 d in
                rw d (
                  sym (
                    keep-none (get j rows)
                      (subst (λ k. holds is_unfinished (get k rows) ≡ true) same t)))
          ])
    | inr t ↦
        rw (abandon, t)
          (elim (Bool-cases (id == j)) [
            | inr d ↦ rw d refl
            | inl d ↦
                let same : id ≡ j = (==_iff id j).0 d in
                rw d (
                  sym (
                    keep-all (get j rows)
                      (subst (λ k. holds is_unfinished (get k rows) ≡ false) same t)))
          ])
  ]

  pub get-finish :
      (id j : String) (result : ApplyPatchResult) (now : ℕ) (rows : Ledger)
      → get j (finish serde id result now rows).0
        ≡ (if id == j then Option.map (finished_row serde result now) (get j rows) else get j rows)
  unfolding finish
  get-finish id j result now rows = elim (Option-cases (get id rows)) [
    | inl e ↦
        rw (finish, e)
          (elim (Bool-cases (id == j)) [
            | inr d ↦ rw d refl
            | inl d ↦
                let nothing : get j rows ≡ none =
                  ap (λ k. get k rows) (sym ((==_iff id j).0 d)) ∙ e in
                rw (d, nothing) refl
          ])
    | inr (row, e) ↦
        rw (finish, e) (get-update id j (λ r. true) (finished_row serde result now) rows)
  ]
