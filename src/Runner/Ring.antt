-- ===== src/Runner/Ring.antt =====
-- crates/runner/src/process.rs: the ring holds the end of what the process wrote, and reads give it.
use code_space.Prelude.{
  ℕ, ◌+◌, ◌-◌, ◌≤◌, ◌<◌, String, ◌≡◌, refl, sym, ap, subst, ◌∙◌, Bool, true, false, ◌&&◌,
  if◌then◌else◌, List, [], ◌∷◌, ◌++◌, length, drop, length-append, length-drop, drop-append,
  drop-drop, drop_all, ltb, leb, inl, inr, arith, Bool-cases,
}
use mathlib.Core.List.{append-nil, append_assoc}
use code_space.Domain.Error.{ErrorCode, new, ok, err}
use code_space.Runner.Output.{OutputBuf, empty_output, as_u64, pump, max_of, chunk_at, read_output}

-- What happens to the output of a process: bytes arrive, its time limit passes, its stream ends.
pub data OutputEvent : Type 0 where
  arrives : List ℕ → OutputEvent
  times_out closes : OutputEvent

unfoldable pub pumped : ℕ → List OutputEvent → OutputBuf → OutputBuf
unfolding pump
pumped cap [] out = out
pumped cap (arrives chunk ∷ es) out = pumped cap es (pump cap chunk out)
pumped cap (times_out ∷ es) out = pumped cap es (record out { timed_out = true })
pumped cap (closes ∷ es) out = pumped cap es (record out { eof = true })

unfoldable pub joined : List OutputEvent → List ℕ
joined [] = []
joined (arrives chunk ∷ es) = chunk ++ joined es
joined (_ ∷ es) = joined es

-- Whether the time limit has passed, and whether the stream has ended, from these flags on.
unfoldable pub timed_after : Bool → List OutputEvent → Bool
timed_after t [] = t
timed_after t (times_out ∷ es) = timed_after true es
timed_after t (_ ∷ es) = timed_after t es

unfoldable pub closed_after : Bool → List OutputEvent → Bool
closed_after d [] = d
closed_after d (closes ∷ es) = closed_after true es
closed_after d (_ ∷ es) = closed_after d es

-- The buffer holds the end of everything that was written.
pub record IsRing (cap : ℕ) (log : List ℕ) (t d : Bool) (out : OutputBuf) : Type 0 where
  pub total : out.total ≡ length log
  pub held : out.dropped + length out.bytes ≡ length log
  pub bytes : out.bytes ≡ drop out.dropped log
  pub bound : length out.bytes ≤ cap
  pub exact : out.dropped ≡ length log - cap
  pub on_time : out.timed_out ≡ t
  pub more : out.eof ≡ d

as_u64_small : (n : ℕ) → n < 18446744073709551616 → as_u64 n ≡ n
as_u64_small n h = omega arith

pump-IsRing :
    (cap : ℕ) (log chunk : List ℕ) (t d : Bool) (out : OutputBuf)
    → length (log ++ chunk) < 18446744073709551616
    → IsRing cap log t d out
    → IsRing cap (log ++ chunk) t d (pump cap chunk out)
unfolding pump
pump-IsRing cap log chunk t d out small h =
    let sum : length (log ++ chunk) ≡ length log + length chunk = length-append log chunk in
    let all_bytes : length (out.bytes ++ chunk) ≡ length out.bytes + length chunk =
      length-append out.bytes chunk in
    let total : as_u64 (out.total + length chunk) ≡ length (log ++ chunk) =
      ap (λ n. as_u64 (n + length chunk)) h.total
      ∙ ap as_u64 (sym sum)
      ∙ as_u64_small (length (log ++ chunk)) small in
    let content : out.bytes ++ chunk ≡ drop out.dropped (log ++ chunk) =
      ap (λ b. b ++ chunk) h.bytes
      ∙ sym (drop-append out.dropped log chunk (omega (arith, h.held))) in
    elim (Bool-cases (ltb cap (length (out.bytes ++ chunk)))) [
      | inr e ↦
          rw (pump, e)
            (record {
              total = total;
              held = omega (arith, h.held, sum, all_bytes);
              bytes = content;
              bound = ground (arith, e);
              exact = ground (arith, e, h.exact, h.held, sum, all_bytes);
              on_time = h.on_time;
              more = h.more;
            })
      | inl e ↦
          let extra : ℕ = length (out.bytes ++ chunk) - cap in
          let over : cap < length (out.bytes ++ chunk) = ground (arith, e) in
          let moved : as_u64 (out.dropped + extra) ≡ out.dropped + extra =
            as_u64_small (out.dropped + extra) (omega (arith, h.held, sum, all_bytes, small)) in
          let left : length (drop extra (out.bytes ++ chunk)) ≡ cap =
            length-drop extra (out.bytes ++ chunk) ∙ omega (arith, over) in
          rw (pump, e)
            (record {
              total = total;
              held = omega (arith, moved, left, h.held, sum, all_bytes, over);
              bytes =
                  ap (λ b. drop extra b) content
                  ∙ drop-drop extra out.dropped (as_u64 (out.dropped + extra)) (log ++ chunk)
                      (sym moved);
              bound = omega (arith, left);
              exact = omega (arith, moved, h.held, h.exact, sum, all_bytes, over);
              on_time = h.on_time;
              more = h.more;
            })
    ]

pumped-IsRing :
    (cap : ℕ) (log : List ℕ) (es : List OutputEvent) (t d : Bool) (out : OutputBuf)
    → length (log ++ joined es) < 18446744073709551616
    → IsRing cap log t d out
    → IsRing cap (log ++ joined es) (timed_after t es) (closed_after d es) (pumped cap es out)
unfolding pumped joined timed_after closed_after
pumped-IsRing cap log [] t d out small h =
    subst (λ l. IsRing cap l t d out) (sym (append-nil log)) h
pumped-IsRing cap log (arrives chunk ∷ es) t d out small h =
    let same : (log ++ chunk) ++ joined es ≡ log ++ (chunk ++ joined es) =
      append_assoc log chunk (joined es) in
    let fits : length ((log ++ chunk) ++ joined es) < 18446744073709551616 =
      subst (λ l. length l < 18446744073709551616) (sym same) small in
    subst
      (λ l.
        IsRing cap l (timed_after t es) (closed_after d es) (pumped cap es (pump cap chunk out)))
      same
      (pumped-IsRing cap (log ++ chunk) es t d (pump cap chunk out) fits (
        pump-IsRing cap log chunk t d out
          (omega (arith, fits, length-append (log ++ chunk) (joined es))) h))
pumped-IsRing cap log (times_out ∷ es) t d out small h =
    pumped-IsRing cap log es true d (record out { timed_out = true }) small
      (record {
        total = h.total;
        held = h.held;
        bytes = h.bytes;
        bound = h.bound;
        exact = h.exact;
        on_time = refl;
        more = h.more;
      })
pumped-IsRing cap log (closes ∷ es) t d out small h =
    pumped-IsRing cap log es t true (record out { eof = true }) small
      (record {
        total = h.total;
        held = h.held;
        bytes = h.bytes;
        bound = h.bound;
        exact = h.exact;
        on_time = h.on_time;
        more = refl;
      })

chunk_ring :
    (cap start : ℕ) (log : List ℕ) (t d : Bool) (out : OutputBuf)
    → IsRing cap log t d out
    → out.dropped ≤ start
    → chunk_at (start - out.dropped) out ≡ drop start log
chunk_ring cap start log t d out h after =
    elim (Bool-cases (leb (length out.bytes) (start - out.dropped))) [
      | inl e ↦ rw e (sym (drop_all start log (ground (arith, e, h.held))))
      | inr e ↦ rw e (
          ap (λ b. drop (start - out.dropped) b) h.bytes
          ∙ drop-drop (start - out.dropped) out.dropped start log (omega (arith, after)))
    ]

max_bounds : (a b : ℕ) → b ≤ max_of a b
max_bounds a b = ground arith

-- The end of a read from `c`, of `n` bytes of which the first `d` are dropped.
read_end : (c d n : ℕ) → d ≤ n → max_of c d + (n - max_of c d) ≡ max_of c n
read_end c d n h = ground arith

max_small : (a b n : ℕ) → a < n → b < n → max_of a b < n
max_small a b n h k = ground arith

at_end : (d : Bool) (n c : ℕ) → (d && leb n (max_of c n)) ≡ d
at_end d n c = ground arith

lost : (n c : ℕ) → ltb 0 (n - c) ≡ ltb c n
lost n c = ground arith

-- Of all that a process wrote, less than 2^64 bytes, the runner keeps the last `cap` bytes. A read at
-- any cursor of 64 bits answers with the bytes from the cursor, or from the first byte kept where that is
-- later; its next cursor is the end, or the cursor itself where that is later. It says that the stream
-- ended exactly when it has, and that output was lost exactly when there was more than `cap`. Once the
-- time limit has passed, a read at the end or later is an error instead.
pub read_output-pumped :
    (cap : ℕ) (lossy : List ℕ → String) (id : String) (es : List OutputEvent) (cursor : ℕ)
    → length (joined es) < 18446744073709551616
    → cursor < 18446744073709551616
    → read_output lossy id cursor (pumped cap es empty_output) ≡ (
        if timed_after false es && leb (length (joined es)) cursor
        then err (new ErrorCode.timeout "managed process exceeded time limit")
        else ok (record {
          process_id = id;
          cursor = max_of cursor (length (joined es));
          chunk = lossy (drop (max_of cursor (length (joined es) - cap)) (joined es));
          eof = closed_after false es;
          output_lost = ltb cap (length (joined es));
          retained_from = length (joined es) - cap;
        }))
unfolding read_output drop
read_output-pumped cap lossy id es cursor small inside =
    let log : List ℕ = joined es in
    let out : OutputBuf = pumped cap es empty_output in
    let ring : IsRing cap log (timed_after false es) (closed_after false es) out =
      pumped-IsRing cap [] es false false empty_output small (record {
        total = refl;
        held = refl;
        bytes = refl;
        bound = omega arith;
        exact = omega arith;
        on_time = refl;
        more = refl;
      }) in
    let start : ℕ = max_of cursor out.dropped in
    let held : chunk_at (start - out.dropped) out ≡ drop start log =
      chunk_ring cap start log (timed_after false es) (closed_after false es) out ring
        (max_bounds cursor out.dropped) in
    let end : as_u64 (start + length (drop start log)) ≡ max_of cursor (length log) =
      ap (λ n. as_u64 (start + n)) (length-drop start log)
      ∙ ap as_u64 (read_end cursor out.dropped (length log) (omega (arith, ring.held)))
      ∙ as_u64_small (max_of cursor (length log))
          (max_small cursor (length log) 18446744073709551616 inside small) in
    rw
      (
        read_output,
        ring.on_time,
        ring.total,
        held,
        end,
        ring.more,
        at_end (closed_after false es) (length log) cursor,
        ring.exact,
        lost (length log) cap,
      )
      refl
