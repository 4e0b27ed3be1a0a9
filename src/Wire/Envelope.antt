-- ===== src/Wire/Envelope.antt =====
-- crates/runner/src/wire.rs: the envelope of a request, an answer or an event, and its frame in a stream
-- of bytes. `Q`, `R` and `V` stand for what requests, results and events carry.
use Prim.Native.Nat.{◌/◌}
use Prim.Native.String.{◌++◌ as str_append}
use code_space.Prelude.{
  ℕ, ◌+◌, ◌*◌, ◌%◌, String, Bool, true, false, Option, none, some, List, [], ◌∷◌, ◌==◌, ◌++◌, not,
  nat_keyed, ltb, ◌||◌, if◌then◌else◌, length, drop, take, ◌⊎◌, inl, inr,
}
use code_space.Domain.Error.{ErrorBody, ErrorCode, new, Result, err}
use code_space.Control.State.{RunnerOp}

pub data WireKind : Type 0 where
  request response event : WireKind

pub record WireEnvelope (Q R V : Type 0) : Type 0 where
  pub protocol : ℕ
  pub kind : WireKind
  pub request_id : Option String
  pub epoch : Option ℕ
  pub op : Option (RunnerOp Q)
  pub ok : Option Bool
  pub result : Option R
  pub error : Option ErrorBody
  pub seq : Option ℕ
  pub event : Option V

abbrev pub wire_protocol : ℕ
wire_protocol = 11

abbrev pub max_frame_bytes : ℕ
max_frame_bytes = 16777216

abbrev pub or_default : Option String → String
or_default none = ""
or_default (some id) = id

abbrev pub is_request_kind : WireKind → Bool
is_request_kind WireKind.request = true
is_request_kind _ = false

module _ {Q R V : Type 0} where
  abbrev pub envelope_of : String → RunnerOp Q → WireEnvelope Q R V
  envelope_of id op = record {
    protocol = wire_protocol;
    kind = WireKind.request;
    request_id = some id;
    epoch = none;
    op = some op;
    ok = none;
    result = none;
    error = none;
    seq = none;
    event = none;
  }

  abbrev pub with_epoch : Option ℕ → WireEnvelope Q R V → WireEnvelope Q R V
  with_epoch epoch e = record e { epoch = epoch }

  abbrev pub response_of : String → Result R → WireEnvelope Q R V
  response_of id (Result.ok value) = record {
    protocol = wire_protocol;
    kind = WireKind.response;
    request_id = some id;
    epoch = none;
    op = none;
    ok = some true;
    result = some value;
    error = none;
    seq = none;
    event = none;
  }
  response_of id (Result.err e) = record {
    protocol = wire_protocol;
    kind = WireKind.response;
    request_id = some id;
    epoch = none;
    op = none;
    ok = some false;
    result = none;
    error = some e;
    seq = none;
    event = none;
  }

  abbrev pub parsed :
      (String ⊎ WireEnvelope Q R V) → (String × Option ℕ × Option (RunnerOp Q)) ⊎ WireEnvelope Q R V
  parsed (inl message) = inr (
      response_of ""
        (err (new ErrorCode.invalid_patch (str_append "invalid runner rpc: " message))))
  parsed (inr e) =
      if not (e.protocol == wire_protocol) || not (is_request_kind e.kind)
      then (inr (
          response_of (or_default e.request_id)
            (err (new ErrorCode.invalid_patch "runner rpc protocol mismatch"))))
      else inl (or_default e.request_id, e.epoch, e.op)

  -- `from_slice` is that of serde_json, with the text of its error.
  unfoldable pub parse_request :
      (List ℕ → String ⊎ WireEnvelope Q R V)
      → List ℕ
      → (String × Option ℕ × Option (RunnerOp Q)) ⊎ WireEnvelope Q R V
  parse_request from_slice payload = parsed (from_slice payload)

abbrev pub to_be_bytes : ℕ → List ℕ
to_be_bytes n = n / 16777216 ∷ n / 65536 % 256 ∷ n / 256 % 256 ∷ n % 256 ∷ []

-- What `write_frame` writes of a payload that serde_json made of the envelope.
unfoldable pub write_frame : List ℕ → Option (List ℕ)
write_frame payload =
    if ltb (length payload) 4294967296 then some (to_be_bytes (length payload) ++ payload) else none

-- What `read_frame` returns of the bytes of a stream that ends after them, with the bytes left.
pub data FrameRead : Type 0 where
  stream_end payload_cut : FrameRead
  invalid_length : ℕ → FrameRead
  frame : List ℕ → List ℕ → FrameRead

abbrev pub read_payload : ℕ → List ℕ → FrameRead
read_payload len bytes =
    if len == 0 || ltb max_frame_bytes len
    then invalid_length len
    else if ltb (length bytes) len
    then payload_cut
    else frame (take len bytes) (drop len bytes)

unfoldable pub read_frame : List ℕ → FrameRead
read_frame (a ∷ b ∷ c ∷ d ∷ bytes) = read_payload (a * 16777216 + b * 65536 + c * 256 + d) bytes
read_frame _ = stream_end
