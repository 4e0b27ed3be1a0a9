-- ===== src/Wire/RoundTrip.antt =====
-- crates/runner/src/wire.rs: what one side of a stream writes, the other reads back.
use Prim.Native.Nat.{◌/◌}
use code_space.Prelude.{
  ℕ, ◌+◌, ◌*◌, ◌%◌, ◌<◌, ◌≡◌, ◌∙◌, ap, List, ◌++◌, ◌==◌, nat_keyed, ◌||◌, ltb, if◌then◌else◌,
  length, length-append, take_front, drop_front, arith, String, Option, some, ◌⊎◌, inl, inr,
}
use code_space.Control.State.{RunnerOp}
use code_space.Wire.Envelope.{
  FrameRead, frame, invalid_length, to_be_bytes, write_frame, read_frame, read_payload,
  max_frame_bytes, WireEnvelope, with_epoch, envelope_of, parse_request, parsed,
}

be_bytes_lem :
    (n : ℕ)
    → n < 4294967296
    → n / 16777216 * 16777216 + n / 65536 % 256 * 65536 + n / 256 % 256 * 256 + n % 256 ≡ n
be_bytes_lem n h = omega arith

abbrev pub received_frame : List ℕ → List ℕ → FrameRead
received_frame payload rest =
    if length payload == 0 || ltb max_frame_bytes (length payload)
    then invalid_length (length payload)
    else frame payload rest

read_payload_lem :
    (payload rest : List ℕ)
    → read_payload (length payload) (payload ++ rest) ≡ received_frame payload rest
read_payload_lem payload rest =
    ground (arith, length-append payload rest, take_front payload rest, drop_front payload rest)

read_frame-be_bytes :
    (payload rest : List ℕ)
    → length payload < 4294967296
    → read_frame (to_be_bytes (length payload) ++ (payload ++ rest)) ≡ received_frame payload rest
unfolding read_frame
read_frame-be_bytes payload rest small =
    ap (λ n. read_payload n (payload ++ rest)) (be_bytes_lem (length payload) small)
    ∙ read_payload_lem payload rest

written_payload :
    (payload bytes rest : List ℕ)
    → write_frame payload ≡ some bytes
    → (length payload < 4294967296)
      × (bytes ++ rest ≡ to_be_bytes (length payload) ++ (payload ++ rest))
unfolding write_frame
written_payload payload bytes rest h =
    let same : bytes ≡ to_be_bytes (length payload) ++ payload = ground arith in
    (ground arith, ap (λ b. b ++ rest) same)

-- What `write_frame` wrote of a payload is read back by `read_frame`, in front of any other bytes,
-- unless the payload is empty or longer than 16 MiB: its length is then refused as invalid.
pub read_frame-write_frame :
    (payload bytes rest : List ℕ)
    → write_frame payload ≡ some bytes
    → read_frame (bytes ++ rest) ≡ received_frame payload rest
read_frame-write_frame payload bytes rest h =
    let w = written_payload payload bytes rest h in
    ap read_frame w.1 ∙ read_frame-be_bytes payload rest w.0

-- A request is parsed to its id, its epoch and its operation, where serde_json reads its envelope.
parse_request-envelope_of :
    {Q R V : Type 0} (from_slice : List ℕ → String ⊎ WireEnvelope Q R V) (payload : List ℕ)
    (id : String) (epoch : Option ℕ) (op : RunnerOp Q)
    → from_slice payload ≡ inr (with_epoch epoch (envelope_of id op))
    → parse_request from_slice payload ≡ inl (id, epoch, some op)
unfolding parse_request
parse_request-envelope_of from_slice payload id epoch op h = ap parsed h
