-- ===== src/Wire/Replay.antt =====
-- crates/runner/src/wire.rs: the answers of a connection, the last 32 of which are kept for replay.
use Prim.Native.String.{◌++◌ as str_append}
use code_space.Prelude.{
  ℕ, String, Option, none, some, List, [], ◌∷◌, ◌++◌, ◌==◌, string_keyed, leb, if◌then◌else◌,
  length, drop,
}
use code_space.Domain.Error.{ErrorBody, ErrorCode, new, Result, ok, err}
use code_space.Control.State.{RunnerOp}
use code_space.Wire.Envelope.{WireEnvelope, response_of}

abbrev pub max_replay : ℕ
max_replay = 32

abbrev pub invalid : String → ErrorBody
invalid message = new ErrorCode.invalid_patch message

-- The request whose answer is asked for again.
abbrev pub replay_of : {Q : Type 0} → RunnerOp Q → Option String
replay_of (RunnerOp.replay original) = some original
replay_of op = none

-- `dispatch` has what the runner answers to an operation.
abbrev pub result_of : {Q R : Type 0} → R → (RunnerOp Q → Result R) → RunnerOp Q → Result R
result_of hello dispatch (RunnerOp.hello) = ok hello
result_of hello dispatch op = dispatch op

module _ {Q R V : Type 0} where
  unfoldable pub find_answer :
      String → List (String × WireEnvelope Q R V) → Option (WireEnvelope Q R V)
  find_answer id [] = none
  find_answer id ((i, e) ∷ cache) = if i == id then some e else find_answer id cache

  abbrev pub push_answer :
      String
      → WireEnvelope Q R V
      → List (String × WireEnvelope Q R V)
      → List (String × WireEnvelope Q R V)
  push_answer id e cache =
      (if leb max_replay (length cache) then drop 1 cache else cache) ++ ((id, e) ∷ [])

  abbrev pub replay_as : String → String → Option (WireEnvelope Q R V) → WireEnvelope Q R V
  replay_as id original none =
      response_of id
        (err (invalid (str_append "unknown runner request_id `" (str_append original "`"))))
  replay_as id original (some e) = record e { request_id = some id }

  abbrev pub keep_answer :
      String
      → WireEnvelope Q R V
      → List (String × WireEnvelope Q R V)
      → List (String × WireEnvelope Q R V)
  keep_answer id e cache = if id == "" then cache else push_answer id e cache

  abbrev pub answer_op :
      R
      → (RunnerOp Q → Result R)
      → String
      → RunnerOp Q
      → Option String
      → List (String × WireEnvelope Q R V)
      → WireEnvelope Q R V × List (String × WireEnvelope Q R V)
  answer_op hello dispatch id op (some original) cache =
      (replay_as id original (find_answer original cache), cache)
  answer_op hello dispatch id op none cache = (
    response_of id (result_of hello dispatch op),
    keep_answer id (response_of id (result_of hello dispatch op)) cache,
  )

  unfoldable pub answer_in_turn :
      R
      → (RunnerOp Q → Result R)
      → String
      → Option (RunnerOp Q)
      → List (String × WireEnvelope Q R V)
      → WireEnvelope Q R V × List (String × WireEnvelope Q R V)
  answer_in_turn hello dispatch id (some op) cache =
      answer_op hello dispatch id op (replay_of op) cache
  answer_in_turn hello dispatch id none cache =
      (response_of id (err (invalid "runner rpc missing op")), cache)
