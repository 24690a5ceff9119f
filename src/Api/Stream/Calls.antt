-- ===== src/Api/Stream/Calls.antt =====
-- One call on a stream of source/api/api_trace_io.cpp, against the same call on a file.
use radeon_developer_panel.Common.{
  ℕ, ◌+◌, ◌%◌, ◌≤◌, ◌<◌, ◌≡◌, ap, Bool, true, false, List, [], ◌∷◌, Option, none, some, leb, ltb,
  if◌then◌else◌, Bytes, length, take, drop, arith, length-take, leb→le, lt→ltb, Bool-cases, inl,
  inr,
}
use radeon_developer_panel.Api.Stream.Memory.{
  word, half_word, pos, negsuc, StreamData, write, ReadResult, refused, fault, bytes_read, read,
  seek,
}
use radeon_developer_panel.Api.Stream.File.{
  File, Op, writes, reads, seeks, Reply, wrote, got, moved, rejected, file_step,
}
use radeon_developer_panel.Api.Stream.Buffer.{take-drop-take}
use radeon_developer_panel.Api.Stream.Refinement.{IsValid, contents, write-refines}

-- The stream object: its data and its head index.
abbrev pub Stream : Type 0
Stream = StreamData × ℕ

abbrev pub file_of : Stream → File
file_of (d, index) = record { bytes = contents d; position = index }

abbrev write_reply : ℕ → Option Stream → Option (Stream × Reply)
write_reply n none = none
write_reply n (some s) = some (s, wrote n)

abbrev read_reply : Stream → ReadResult → Option (Stream × Reply)
read_reply s refused = some (s, rejected)
read_reply s fault = none
read_reply (d, index) (bytes_read bs next) = some ((d, next), got bs)

abbrev seek_reply : StreamData → Bool × ℕ → Option (Stream × Reply)
seek_reply d (done, index) = some ((d, index), if done then moved else rejected)

-- `none` is a fault.
unfoldable pub stream_step : (ℕ → ℕ) → Op → Stream → Option (Stream × Reply)
unfolding write read seek
stream_step fresh (writes bytes) (d, index) = write_reply (length bytes) (write fresh bytes d index)
stream_step fresh (reads n) (d, index) = read_reply (d, index) (read n d index)
stream_step fresh (seeks p) (d, index) = seek_reply d (seek p d index)

-- How many bytes the calls write.
abbrev pub total_written : List Op → ℕ
total_written [] = 0
total_written (writes bytes ∷ ops) = length bytes + total_written ops
total_written (reads n ∷ ops) = total_written ops
total_written (seeks p ∷ ops) = total_written ops

-- Counts are `int64_t`, and no call seeks to a negative position.
abbrev pub IsSound : Op → Type 0
IsSound (writes bytes) = Unit
IsSound (reads n) = n < half_word
IsSound (seeks (pos n)) = Unit
IsSound (seeks (negsuc n)) = ⊥

-- One call does to the stream what it does to the file, with the same answer, and does not fault.
pub record Agrees (fresh : ℕ → ℕ) (op : Op) (d : StreamData) (index : ℕ) : Type 0 where
  pub d' : StreamData
  pub index' : ℕ
  pub ends :
      stream_step fresh op (d, index) ≡ some ((d', index'), (file_step op (file_of (d, index))).1)
  pub valid : IsValid d' index'
  pub file : file_of (d', index') ≡ (file_step op (file_of (d, index))).0
  pub bounded : d'.size + 0 ≤ d.size + total_written (op ∷ [])

length-contents : (d : StreamData) (index : ℕ) → IsValid d index → length (contents d) ≡ d.size
length-contents d index v = omega (arith, length-take d.size d.buffer)

write-Agrees :
    (fresh : ℕ → ℕ) (bytes : Bytes) (d : StreamData) (index : ℕ)
    → IsValid d index
    → d.size + length bytes < half_word
    → Agrees fresh (writes bytes) d index
unfolding stream_step file_step
write-Agrees fresh bytes d index v h =
    let (d', e, v', c, b) = write-refines fresh bytes d index v (omega arith) in
    record {
      d' = d';
      index' = index + length bytes;
      ends = rw e;
      valid = v';
      file =
          ap
            (λ (b : Bytes).
              let f : File = record { bytes = b; position = index + length bytes } in f)
            c;
      bounded = omega (arith, b);
    }

read_past_end :
    (n : ℕ) (d : StreamData) (index : ℕ)
    → index + n < word
    → d.size < index + n
    → read n d index ≡ refused
unfolding read
read_past_end n d index h past =
    let e : (index + n) % word ≡ index + n = omega arith in rw (e, lt→ltb d.size (index + n) past)

read_inside :
    (n : ℕ) (d : StreamData) (index : ℕ)
    → IsValid d index
    → index + n < word
    → index + n ≤ d.size
    → read n d index ≡ bytes_read (take n (drop index (contents d))) (index + n)
unfolding read
read_inside n d index v h inside =
    let e : (index + n) % word ≡ index + n = omega arith in
    let short : ltb d.size (index + n) ≡ false = ground arith in
    let fits : leb (index + n) (length d.buffer) ≡ true = ground (arith, v.allocated, v.roomy) in
    rw (e, short, fits, take-drop-take n index d.size d.buffer inside)

read-Agrees :
    (fresh : ℕ → ℕ) (n : ℕ) (d : StreamData) (index : ℕ)
    → IsValid d index
    → d.size < half_word
    → n < half_word
    → Agrees fresh (reads n) d index
unfolding stream_step file_step
read-Agrees fresh n d index v h k = elim (Bool-cases (leb (index + n) (length (contents d)))) [
  | inl e ↦
      let inside : index + n ≤ d.size =
        omega (arith, leb→le (index + n) (length (contents d)) e, length-contents d index v) in
      record {
        d' = d;
        index' = index + n;
        ends = rw (read_inside n d index v (omega arith) inside, e);
        valid = record { allocated = v.allocated; roomy = v.roomy; inside = inside };
        file = rw e;
        bounded = omega arith;
      }
  | inr e ↦
      let past : d.size < index + n = ground (arith, length-contents d index v) in
      record {
        d' = d;
        index' = index;
        ends = rw (read_past_end n d index (omega arith) past, e);
        valid = v;
        file = rw e;
        bounded = omega arith;
      }
]

seek-Agrees :
    (fresh : ℕ → ℕ) (p : ℕ) (d : StreamData) (index : ℕ)
    → IsValid d index
    → d.size < half_word
    → Agrees fresh (seeks (pos p)) d index
unfolding stream_step file_step seek
seek-Agrees fresh p d index v h =
    let small = lt→ltb d.size half_word h in
    elim (Bool-cases (leb p (length (contents d)))) [
      | inl e ↦
          let inside : p ≤ d.size =
            omega (arith, leb→le p (length (contents d)) e, length-contents d index v) in
          let near : ltb d.size p ≡ false = ground arith in
          record {
            d' = d;
            index' = p;
            ends = rw (small, near, e);
            valid = record { allocated = v.allocated; roomy = v.roomy; inside = inside };
            file = rw e;
            bounded = omega arith;
          }
      | inr e ↦
          let past : ltb d.size p ≡ true = ground (arith, length-contents d index v) in
          record {
            d' = d;
            index' = index;
            ends = rw (small, past, e);
            valid = v;
            file = rw e;
            bounded = omega arith;
          }
    ]

pub step-Agrees :
    (fresh : ℕ → ℕ) (op : Op) (d : StreamData) (index : ℕ)
    → IsSound op
    → IsValid d index
    → d.size + total_written (op ∷ []) < half_word
    → Agrees fresh op d index
step-Agrees fresh (writes bytes) d index s v h = write-Agrees fresh bytes d index v (omega arith)
step-Agrees fresh (reads n) d index s v h = read-Agrees fresh n d index v (omega arith) s
step-Agrees fresh (seeks (pos p)) d index s v h = seek-Agrees fresh p d index v (omega arith)
step-Agrees fresh (seeks (negsuc n)) d index s v h = absurd s
