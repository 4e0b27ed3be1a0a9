-- ===== src/Wire/Kept.antt =====
-- crates/runner/src/wire.rs: an answer is replayed as long as it is among the last 32.
use mathlib.Core.List.{append_assoc}
use code_space.Prelude.{
  ℕ, suc, ◌+◌, ◌≤◌, ◌<◌, String, ◌≡◌, refl, sym, ap, subst, ◌∙◌, Bool, true, false, Option, none,
  some, List, [], ◌∷◌, ◌++◌, ◌==◌, string_keyed, ==_refl, leb, if◌then◌else◌, length, length-append,
  drop, arith, Bool-cases, inl, inr,
}
use code_space.Domain.Error.{Result}
use code_space.Control.State.{RunnerOp}
use code_space.Wire.Envelope.{WireEnvelope, response_of}
use code_space.Wire.Replay.{
  find_answer, push_answer, keep_answer, answer_in_turn, answer_op, max_replay, result_of,
  replay_of,
}
use code_space.Wire.Serve.{
  RunnerLifecycle, Request, Turn, in_turn, apart, turn_of, served, serve_request, serve_all,
}

module _ {Q R V : Type 0} where
  -- The answer is the first of its id, and at most `n` came after it.
  pub record IsKept (id : String) (e : WireEnvelope Q R V) (n : ℕ)
      (cache : List (String × WireEnvelope Q R V)) : Type 0 where
    older : List (String × WireEnvelope Q R V)
    newer : List (String × WireEnvelope Q R V)
    split : cache ≡ older ++ ((id, e) ∷ newer)
    first : find_answer id older ≡ none
    near : length newer ≤ n

  find_split :
      (id : String) (e : WireEnvelope Q R V) (older newer : List (String × WireEnvelope Q R V))
      → find_answer id older ≡ none
      → find_answer id (older ++ ((id, e) ∷ newer)) ≡ some e
  unfolding find_answer
  find_split id e [] newer h = ground (arith, ==_refl id)
  find_split id e ((i, d) ∷ older) newer h = ground (arith, find_split id e older newer)

  find_kept :
      (id : String) (e : WireEnvelope Q R V) (n : ℕ) (cache : List (String × WireEnvelope Q R V))
      → IsKept id e n cache
      → find_answer id cache ≡ some e
  find_kept id e n cache k = ap (find_answer id) k.split ∙ find_split id e k.older k.newer k.first

  drop_absent :
      (id : String) (xs : List (String × WireEnvelope Q R V))
      → find_answer id xs ≡ none
      → find_answer id (drop 1 xs) ≡ none
  unfolding find_answer drop
  drop_absent id [] h = refl
  drop_absent id ((i, d) ∷ xs) h = ground arith

  push-IsKept :
      (id new : String) (e d : WireEnvelope Q R V) (n : ℕ)
      (older newer : List (String × WireEnvelope Q R V))
      → find_answer id older ≡ none
      → length newer ≤ n
      → n < 31
      → IsKept id e (suc n) (push_answer new d (older ++ ((id, e) ∷ newer)))
  unfolding drop
  push-IsKept id new e d n [] newer absent near room = record {
    older = [];
    newer = newer ++ ((new, d) ∷ []);
    split = ground arith;
    first = absent;
    near = omega (arith, length-append newer ((new, d) ∷ []));
  }
  push-IsKept id new e d n (x ∷ older) newer absent near room =
      elim (Bool-cases (leb max_replay (length (x ∷ older ++ ((id, e) ∷ newer))))) [
        | inl full ↦ record {
          older = older;
          newer = newer ++ ((new, d) ∷ []);
          split =
              ap
                (λ b.
                  (if b then older ++ ((id, e) ∷ newer) else x ∷ (older ++ ((id, e) ∷ newer)))
                  ++ ((new, d) ∷ []))
                full
              ∙ append_assoc older ((id, e) ∷ newer) ((new, d) ∷ []);
          first = drop_absent id (x ∷ older) absent;
          near = omega (arith, length-append newer ((new, d) ∷ []));
        }
        | inr space ↦ record {
          older = x ∷ older;
          newer = newer ++ ((new, d) ∷ []);
          split =
              ap
                (λ b.
                  (if b then older ++ ((id, e) ∷ newer) else x ∷ (older ++ ((id, e) ∷ newer)))
                  ++ ((new, d) ∷ []))
                space
              ∙ append_assoc (x ∷ older) ((id, e) ∷ newer) ((new, d) ∷ []);
          first = absent;
          near = omega (arith, length-append newer ((new, d) ∷ []));
        }
      ]

  later-IsKept :
      (id : String) (e : WireEnvelope Q R V) (n : ℕ) (cache : List (String × WireEnvelope Q R V))
      → IsKept id e n cache
      → IsKept id e (suc n) cache
  later-IsKept id e n cache k = record {
    older = k.older;
    newer = k.newer;
    split = k.split;
    first = k.first;
    near = omega (arith, k.near);
  }

  keep-IsKept :
      (id new : String) (e d : WireEnvelope Q R V) (n : ℕ)
      (cache : List (String × WireEnvelope Q R V))
      → IsKept id e n cache
      → n < 31
      → IsKept id e (suc n) (keep_answer new d cache)
  keep-IsKept id new e d n cache k room = elim (Bool-cases (new == "")) [
    | inl unnamed ↦
        subst (λ b. IsKept id e (suc n) (if b then cache else push_answer new d cache))
          (sym unnamed) (later-IsKept id e n cache k)
    | inr named ↦
        subst (λ b. IsKept id e (suc n) (if b then cache else push_answer new d cache)) (sym named)
          (subst (λ c. IsKept id e (suc n) (push_answer new d c)) (sym k.split)
            (push-IsKept id new e d n k.older k.newer k.first k.near room))
  ]

  answer_op-IsKept :
      (id new : String) (e : WireEnvelope Q R V) (n : ℕ) (hello : R)
      (dispatch : RunnerOp Q → Result R) (op : RunnerOp Q) (original : Option String)
      (cache : List (String × WireEnvelope Q R V))
      → IsKept id e n cache
      → n < 31
      → IsKept id e (suc n) (answer_op hello dispatch new op original cache).1
  answer_op-IsKept id new e n hello dispatch op (some original) cache k room =
      later-IsKept id e n cache k
  answer_op-IsKept id new e n hello dispatch op none cache k room =
      keep-IsKept id new e (response_of new (result_of hello dispatch op)) n cache k room

  answer_in_turn-IsKept :
      (id new : String) (e : WireEnvelope Q R V) (n : ℕ) (hello : R)
      (dispatch : RunnerOp Q → Result R) (op : Option (RunnerOp Q))
      (cache : List (String × WireEnvelope Q R V))
      → IsKept id e n cache
      → n < 31
      → IsKept id e (suc n) (answer_in_turn hello dispatch new op cache).1
  unfolding answer_in_turn
  answer_in_turn-IsKept id new e n hello dispatch (some op) cache k room =
      answer_op-IsKept id new e n hello dispatch op (replay_of op) cache k room
  answer_in_turn-IsKept id new e n hello dispatch none cache k room = later-IsKept id e n cache k

  served-IsKept :
      (id : String) (e : WireEnvelope Q R V) (n : ℕ) (hello : R) (r : Request Q R) (turn : Turn R)
      (cache : List (String × WireEnvelope Q R V))
      → IsKept id e n cache
      → n < 31
      → IsKept id e (suc n) (served hello r cache turn).1
  served-IsKept id e n hello r in_turn cache k room =
      answer_in_turn-IsKept id r.id e n hello r.dispatch r.op cache k room
  served-IsKept id e n hello r (apart none) cache k room = later-IsKept id e n cache k
  served-IsKept id e n hello r (apart (some result)) cache k room = later-IsKept id e n cache k

  pub find_answer-serve_all :
      (life : RunnerLifecycle) (id : String) (e : WireEnvelope Q R V) (hello : R)
      (rs : List (Request Q R)) (n : ℕ) (cache : List (String × WireEnvelope Q R V))
      → IsKept id e n cache
      → n + length rs ≤ 31
      → find_answer id (serve_all life hello rs cache) ≡ some e
  unfolding serve_all serve_request
  find_answer-serve_all life id e hello [] n cache k room = find_kept id e n cache k
  find_answer-serve_all life id e hello (r ∷ rs) n cache k room =
      find_answer-serve_all life id e hello rs (suc n) (serve_request life hello r cache).1
        (served-IsKept id e n hello r (turn_of life r) cache k (omega arith)) (omega arith)

  room_absent :
      (id : String) (full : Bool) (cache : List (String × WireEnvelope Q R V))
      → find_answer id cache ≡ none
      → find_answer id (if full then drop 1 cache else cache) ≡ none
  room_absent id true cache h = drop_absent id cache h
  room_absent id false cache h = h

  pub fresh-IsKept :
      (id : String) (e : WireEnvelope Q R V) (cache : List (String × WireEnvelope Q R V))
      → (id == "") ≡ false
      → find_answer id cache ≡ none
      → IsKept id e 0 (keep_answer id e cache)
  fresh-IsKept id e cache named absent =
      subst (λ b. IsKept id e 0 (if b then cache else push_answer id e cache)) (sym named)
        (record {
          older = if leb max_replay (length cache) then drop 1 cache else cache;
          newer = [];
          split = refl;
          first = room_absent id (leb max_replay (length cache)) cache absent;
          near = omega arith;
        })
