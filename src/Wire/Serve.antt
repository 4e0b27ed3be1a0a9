-- ===== src/Wire/Serve.antt =====
-- crates/runner/src/wire.rs, lifecycle.rs: which requests of a connection `answer` gets, and which are
-- answered apart: refused, on a task of their own, or by the control of an independent runner.
use code_space.Prelude.{
  String, Bool, true, false, not, Option, none, some, List, [], ◌∷◌, ◌&&◌, if◌then◌else◌,
}
use code_space.Domain.Error.{ErrorBody, ErrorCode, new, Result, ok, err}
use code_space.Control.State.{RunnerOp}
use code_space.Wire.Envelope.{WireEnvelope, response_of}
use code_space.Wire.Replay.{answer_in_turn}

pub data RunnerLifecycle : Type 0 where
  managed independent : RunnerLifecycle

-- A request with what the runner makes of it: what it answers in turn, whether the control admits it,
-- and what it answers to what `answer` does not get.
pub record Request (Q R : Type 0) : Type 0 where
  pub id : String
  pub op : Option (RunnerOp Q)
  pub dispatch : RunnerOp Q → Result R
  pub admitted : Result (Unit {0})
  pub elsewhere : RunnerOp Q → Result R

-- What is answered apart has its answer at once, or none at once: it is answered later by a task of its
-- own, or ends the connection.
pub data Turn (R : Type 0) : Type 0 where
  in_turn : Turn R
  apart : Option (Result R) → Turn R

module _ {Q : Type 0} where
  abbrev pub answered_beside : RunnerOp Q → Bool
  answered_beside RunnerOp.registration = true
  answered_beside (RunnerOp.prepare w q) = true
  answered_beside (RunnerOp.launch w q) = true
  answered_beside (RunnerOp.lookup q) = true
  answered_beside _ = false

  abbrev pub independent_only : RunnerOp Q → Bool
  independent_only (RunnerOp.claim store_id) = true
  independent_only RunnerOp.detach = true
  independent_only RunnerOp.stop = true
  independent_only (RunnerOp.recall ids) = true
  independent_only (RunnerOp.reconciled ids) = true
  independent_only (RunnerOp.acknowledge ids) = true
  independent_only (RunnerOp.lookup q) = true
  independent_only _ = false

  abbrev pub is_answered_by_control : RunnerOp Q → Bool
  is_answered_by_control (RunnerOp.recall ids) = true
  is_answered_by_control (RunnerOp.reconciled ids) = true
  is_answered_by_control (RunnerOp.acknowledge ids) = true
  is_answered_by_control _ = false

abbrev pub not_independent : ErrorBody
not_independent =
    new ErrorCode.invalid_command
      "this worker belongs to the gateway that started it; only an independent Runner is claimed, detaches, stops on request or is reconciled"

abbrev pub stopped_turn : {R : Type 0} → Result (Unit {0}) → Turn R
stopped_turn (err refusal) = apart (some (err refusal))
stopped_turn (ok u) = apart none

module _ {Q R : Type 0} where
  -- The loop of `serve`.
  abbrev pub managed_turn : Option (RunnerOp Q) → Turn R
  managed_turn none = in_turn
  managed_turn (some op) =
      if answered_beside op && not (independent_only op)
      then apart none
      else if independent_only op
      then apart (some (err not_independent))
      else in_turn

  -- The loop of `connection`.
  abbrev pub admitted_turn : Request Q R → RunnerOp Q → Result (Unit {0}) → Turn R
  admitted_turn r op (err refusal) = apart (some (err refusal))
  admitted_turn r op (ok u) =
      if is_answered_by_control op
      then apart (some (r.elsewhere op))
      else if answered_beside op
      then apart none
      else in_turn

  abbrev pub independent_turn : Request Q R → Option (RunnerOp Q) → Turn R
  independent_turn r none = in_turn
  independent_turn r (some RunnerOp.detach) = apart none
  independent_turn r (some RunnerOp.stop) = stopped_turn r.admitted
  independent_turn r (some (RunnerOp.claim store_id)) =
      apart (some (r.elsewhere (RunnerOp.claim store_id)))
  independent_turn r (some RunnerOp.hello) = in_turn
  independent_turn r (some (RunnerOp.replay original)) = in_turn
  independent_turn r (some op) = admitted_turn r op r.admitted

  abbrev pub turn_of : RunnerLifecycle → Request Q R → Turn R
  turn_of managed r = managed_turn r.op
  turn_of independent r = independent_turn r r.op

module _ {Q R V : Type 0} where
  abbrev pub served :
      R
      → Request Q R
      → List (String × WireEnvelope Q R V)
      → Turn R
      → Option (WireEnvelope Q R V) × List (String × WireEnvelope Q R V)
  served hello r cache in_turn =
      let answered = answer_in_turn hello r.dispatch r.id r.op cache in
      (some answered.0, answered.1)
  served hello r cache (apart none) = (none, cache)
  served hello r cache (apart (some result)) = (some (response_of r.id result), cache)

  unfoldable pub serve_request :
      RunnerLifecycle
      → R
      → Request Q R
      → List (String × WireEnvelope Q R V)
      → Option (WireEnvelope Q R V) × List (String × WireEnvelope Q R V)
  serve_request life hello r cache = served hello r cache (turn_of life r)

  unfoldable pub serve_all :
      RunnerLifecycle
      → R
      → List (Request Q R)
      → List (String × WireEnvelope Q R V)
      → List (String × WireEnvelope Q R V)
  serve_all life hello [] cache = cache
  serve_all life hello (r ∷ rs) cache = serve_all life hello rs (serve_request life hello r cache).1
