-- ===== src/Runner/Output.antt =====
-- crates/runner/src/process.rs: the ring of a process's output. Bytes are natural numbers, and
-- `String::from_utf8_lossy` is a parameter.
use code_space.Prelude.{
  ℕ, ◌+◌, ◌-◌, ◌%◌, String, Bool, false, List, [], ◌++◌, length, drop, ltb, leb, ◌&&◌,
  if◌then◌else◌,
}
use code_space.Domain.Error.{ErrorCode, new, Result, ok, err}

pub record OutputBuf : Type 0 where
  pub dropped : ℕ
  pub total : ℕ
  pub bytes : List ℕ
  pub eof : Bool
  pub timed_out : Bool

abbrev pub empty_output : OutputBuf
empty_output = record { dropped = 0; total = 0; bytes = []; eof = false; timed_out = false }

abbrev pub as_u64 : ℕ → ℕ
as_u64 n = n % 18446744073709551616

abbrev pub received_bytes : List ℕ → OutputBuf → OutputBuf
received_bytes chunk out = record out {
  total = as_u64 (out.total + length chunk);
  bytes = out.bytes ++ chunk;
}

-- What is over the capacity goes from the front.
abbrev pub trimmed : ℕ → OutputBuf → OutputBuf
trimmed cap out =
    if ltb cap (length out.bytes)
    then record out {
      bytes = drop (length out.bytes - cap) out.bytes;
      dropped = as_u64 (out.dropped + (length out.bytes - cap));
    }
    else out

-- One round of the loops of `pump_chunks` and `pump_reader`.
unfoldable pub pump : ℕ → List ℕ → OutputBuf → OutputBuf
pump cap chunk out = trimmed cap (received_bytes chunk out)

pub record RunnerReadResult : Type 0 where
  pub process_id : String
  pub cursor : ℕ
  pub chunk : String
  pub eof : Bool
  pub output_lost : Bool
  pub retained_from : ℕ

abbrev pub max_of : ℕ → ℕ → ℕ
max_of a b = if ltb a b then b else a

abbrev pub chunk_at : ℕ → OutputBuf → List ℕ
chunk_at skip out = if leb (length out.bytes) skip then [] else drop skip out.bytes

abbrev pub read_at : (List ℕ → String) → String → ℕ → OutputBuf → RunnerReadResult
read_at lossy id start out =
    let chunk = chunk_at (start - out.dropped) out in
    record {
      process_id = id;
      cursor = as_u64 (start + length chunk);
      chunk = lossy chunk;
      eof = out.eof && leb out.total (as_u64 (start + length chunk));
      output_lost = ltb 0 out.dropped;
      retained_from = out.dropped;
    }

-- `read_host_process`, of a process that is held.
unfoldable pub read_output : (List ℕ → String) → String → ℕ → OutputBuf → Result RunnerReadResult
read_output lossy id cursor out =
    if out.timed_out && leb out.total cursor
    then err (new ErrorCode.timeout "managed process exceeded time limit")
    else ok (read_at lossy id (max_of cursor out.dropped) out)
