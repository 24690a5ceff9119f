-- ===== src/Api/Stream/Run.antt =====
-- Sequences of calls on a stream of source/api/api_trace_io.cpp, against the same calls on a file.
use radeon_developer_panel.Common.{
  ℕ, suc, ◌+◌, ◌-◌, ◌%◌, ◌≤◌, ◌<◌, ltb, leb, lt→ltb, length, false, ◌≡◌, refl, ap, ◌∙◌, List, [],
  ◌∷◌, Option, none, some, arith, All,
}
use radeon_developer_panel.Api.Stream.Memory.{word, half_word, negsuc, StreamData, seek, read}
use radeon_developer_panel.Api.Stream.File.{
  File, Op, writes, reads, seeks, Reply, file_step, file_run,
}
use radeon_developer_panel.Api.Stream.Refinement.{IsValid}
use radeon_developer_panel.Api.Stream.Calls.{
  Stream, file_of, stream_step, total_written, IsSound, step-Agrees,
}

abbrev reply_first : Reply → Option (Stream × List Reply) → Option (Stream × List Reply)
reply_first r none = none
reply_first r (some (s, rs)) = some (s, r ∷ rs)

abbrev then_run :
    Option (Stream × Reply) → (Stream → Option (Stream × List Reply)) → Option (Stream × List Reply)
then_run none next = none
then_run (some (s, r)) next = reply_first r (next s)

unfoldable pub stream_run : (ℕ → ℕ) → List Op → Stream → Option (Stream × List Reply)
unfolding stream_step
stream_run fresh [] s = some (s, [])
stream_run fresh (op ∷ ops) s = then_run (stream_step fresh op s) (stream_run fresh ops)

total_written-cons :
    (op : Op) (ops : List Op)
    → total_written (op ∷ ops) ≡ total_written (op ∷ []) + total_written ops
total_written-cons (writes bytes) ops = omega arith
total_written-cons (reads n) ops = omega arith
total_written-cons (seeks p) ops = omega arith

-- Any sequence of calls answers as the file does and leaves the stream standing for the file that
-- the calls make; no call faults or runs for ever. The counts of reads are below 2 ^ 63, no call
-- seeks to a negative position, and data and writes together stay below 2 ^ 63 bytes.
pub stream_run-refines :
    (fresh : ℕ → ℕ) (ops : List Op) (d : StreamData) (index : ℕ)
    → All IsSound ops
    → IsValid d index
    → d.size + total_written ops < half_word
    → (s : Stream) × (stream_run fresh ops (d, index)
        ≡ some (s, (file_run ops (file_of (d, index))).1))
      × IsValid s.0 s.1
      × (file_of s ≡ (file_run ops (file_of (d, index))).0)
unfolding stream_run file_run
stream_run-refines fresh [] d index h v k = ((d, index), refl, v, refl)
stream_run-refines fresh (op ∷ ops) d index h v k =
    let a = step-Agrees fresh op d index h.0 v (omega (arith, total_written-cons op ops)) in
    let (s, e, v', f) =
      stream_run-refines fresh ops a.d' a.index' h.1 a.valid
        (omega (arith, a.bounded, total_written-cons op ops)) in
    let r = (file_step op (file_of (d, index))).1 in
    (
      s,
      rw (a.ends, e) (ap (λ (f' : File). some (s, r ∷ (file_run ops f').1)) a.file),
      v',
      f ∙ ap (λ (f' : File). (file_run ops f').0) a.file,
    )

-- `Seek` does not refuse a negative position, and the read after it that goes on to a place inside the data
-- passes the test of `Read` and copies from before the buffer, which is a fault. The data are valid and
-- shorter than 2 ^ 63 bytes, and the capacity is a `size_t`.
pub stream_run-negsuc :
    (fresh : ℕ → ℕ) (n count : ℕ) (d : StreamData) (index : ℕ)
    → IsValid d index
    → d.size < half_word
    → d.capacity < word
    → n < half_word
    → n < count
    → count ≤ suc n + d.size
    → stream_run fresh (seeks (negsuc n) ∷ reads count ∷ []) (d, index) ≡ none
unfolding stream_run stream_step seek read
stream_run-negsuc fresh n count d index v h c k l m =
    let small = lt→ltb d.size half_word h in
    let inside : ltb d.size ((word - suc n + count) % word) ≡ false = ground (arith, h, k, l, m) in
    let before : leb (word - suc n + count) (length d.buffer) ≡ false =
      ground (arith, k, l, c, v.allocated) in
    rw (small, inside, before) refl
