-- ===== src/Wire/Tests.antt =====
-- A short frame, a connection with one answer to replay, and the theorems at them.
use code_space.Prelude.{
  Option, ℕ, String, ◌≡◌, refl, Option, none, some, List, [], ◌∷◌, string_keyed,
}
use code_space.Domain.Error.{ok, err}
use code_space.Control.State.{RunnerOp, read_process, recall, lookup, replay}
use code_space.Wire.Envelope.{
  response_of, WireEnvelope, FrameRead, WireEnvelope, frame, read_frame, write_frame,
}
use code_space.Wire.Replay.{answer_in_turn, find_answer, invalid}
use code_space.Wire.RoundTrip.{read_frame-write_frame}
use code_space.Wire.Serve.{Request, managed, independent, serve_request}

abbrev payload : List ℕ
payload = 123 ∷ 125 ∷ []

read_frame-write_frame_example :
    read_frame (0 ∷ 0 ∷ 0 ∷ 2 ∷ 123 ∷ 125 ∷ 0 ∷ 0 ∷ []) ≡ frame payload (0 ∷ 0 ∷ [])
unfolding write_frame
read_frame-write_frame_example =
    read_frame-write_frame payload (0 ∷ 0 ∷ 0 ∷ 2 ∷ 123 ∷ 125 ∷ []) (0 ∷ 0 ∷ []) refl

an_empty_frame : read_frame (0 ∷ 0 ∷ 0 ∷ 0 ∷ 123 ∷ []) ≡ FrameRead.invalid_length 0
unfolding read_frame
an_empty_frame = refl

a_cut_frame : read_frame (0 ∷ 0 ∷ 1 ∷ 0 ∷ 123 ∷ []) ≡ FrameRead.payload_cut
unfolding read_frame
a_cut_frame = refl

abbrev asks : String → Option (RunnerOp String) → Request String String
asks id op = record {
  id = id;
  op = op;
  dispatch = λ o. ok "output";
  admitted = ok tt;
  elsewhere = λ o. ok "recalled";
}

abbrev first : Request String String
first = asks "rrpc-1" (some (read_process "p1"))

-- A request that the control answers, one without an operation, and one that is answered in turn.
abbrev further_requests : List (Request String String)
further_requests =
    asks "rrpc-2" (some (recall ("p1" ∷ [])))
    ∷ asks "" none
    ∷ asks "rrpc-1" (some (read_process "p2"))
    ∷ []

abbrev after_first :
    Option (WireEnvelope String String ℕ) × List (String × WireEnvelope String String ℕ)
after_first = serve_request independent "hello" first []

-- A refusal is not kept: a replay of it is refused.
lookup_is_not_kept :
    (serve_request managed "hello"
      (asks "rrpc-2" (some (replay "rrpc-1")))
      (serve_request {V = ℕ} managed "hello" (asks "rrpc-1" (some (lookup "a1"))) []).1).0
    ≡ some (response_of "rrpc-2" (err (invalid "unknown runner request_id `rrpc-1`")))
unfolding serve_request answer_in_turn find_answer
lookup_is_not_kept = refl
