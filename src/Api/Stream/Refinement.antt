-- ===== src/Api/Stream/Refinement.antt =====
-- The streams of source/api/api_trace_io.cpp behave as the abstract file.
use Prim.Native.Nat.{max}
use radeon_developer_panel.Common.{
  ℕ, suc, ◌+◌, ◌%◌, ◌≤◌, ◌<◌, ◌≡◌, refl, ap, true, [], some, leb, ltb, if◌then◌else◌, Bytes, length,
  take, arith, Bool-cases, inl, inr, ◌⊎◌, ◌∙◌,
}
use radeon_developer_panel.Api.Stream.Memory.{
  word, half_word, StreamData, api_realloc, copy_to, write_grown, write, new_stream_data,
}
use radeon_developer_panel.Api.Stream.File.{overwrite}
use radeon_developer_panel.Api.Stream.Buffer.{
  grow_total, take-copy_to, length-copy_to, length-fresh_bytes, length-api_realloc,
  take-api_realloc,
}

-- The buffer is as long as its capacity says, the head stands within what was written, and there is
-- always room for one byte more.
pub record IsValid (d : StreamData) (index : ℕ) : Type 0 where
  pub allocated : length d.buffer ≡ d.capacity
  pub roomy : d.size < d.capacity
  pub inside : index ≤ d.size

-- The bytes that were written.
abbrev pub contents : StreamData → Bytes
contents d = take d.size d.buffer

abbrev grown_buffer : (ℕ → ℕ) → StreamData → ℕ → ℕ → Bytes
grown_buffer fresh d next c = if leb d.capacity next then api_realloc fresh d.buffer c else d.buffer

module _ (fresh : ℕ → ℕ) (d : StreamData) (index next c : ℕ) (v : IsValid d index) where
  length-grown_buffer :
      (d.capacity ≤ next) ⊎ (c ≡ d.capacity)
      → d.capacity ≤ c
      → next < c
      → length (grown_buffer fresh d next c) ≡ c
  length-grown_buffer why more past = elim (Bool-cases (leb d.capacity next)) [
    | inl e ↦ rw e (length-api_realloc fresh d.buffer c)
    | inr e ↦ rw e (ground (arith, v.allocated))
  ]

  take-grown_buffer :
      d.capacity ≤ c → take d.size (grown_buffer fresh d next c) ≡ take d.size d.buffer
  take-grown_buffer more = elim (Bool-cases (leb d.capacity next)) [
    | inl e ↦ rw e (take-api_realloc fresh d.size c d.buffer (omega arith) (omega arith))
    | inr e ↦ rw e
  ]

abbrev written : (ℕ → ℕ) → Bytes → StreamData → ℕ → ℕ → ℕ → StreamData
written fresh bytes d index next c = record d {
  buffer = copy_to index bytes (grown_buffer fresh d next c);
  capacity = c;
  size = if ltb d.size next then next else d.size;
}

larger : (s n : ℕ) → (if ltb s n then n else s) ≡ max s n
larger s n = ground arith

module _ (fresh : ℕ → ℕ) (bytes : Bytes) (d : StreamData) (index c : ℕ) (v : IsValid d index) where
  abbrev next : ℕ
  next = index + length bytes

  written-IsValid :
      next < c
      → length (grown_buffer fresh d next c) ≡ c
      → d.capacity ≤ c
      → IsValid (written fresh bytes d index next c) next
  written-IsValid past len more = record {
    allocated = length-copy_to index bytes (grown_buffer fresh d next c) ∙ len;
    roomy = omega (arith, larger d.size next, v.roomy);
    inside = omega (arith, larger d.size next);
  }

  contents-written :
      next < c
      → length (grown_buffer fresh d next c) ≡ c
      → d.capacity ≤ c
      → contents (written fresh bytes d index next c) ≡ overwrite index bytes (contents d)
  contents-written past len more = rw (larger d.size next) (
      take-copy_to index d.size bytes (grown_buffer fresh d next c) v.inside (omega arith)
        (omega arith)
      ∙ ap (overwrite index bytes) (take-grown_buffer fresh d index next c v more))

  write_grown-written :
      next < c
      → length (grown_buffer fresh d next c) ≡ c
      → write_grown fresh bytes d index next (some c)
        ≡ some (written fresh bytes d index next c, next)
  unfolding write_grown
  write_grown-written past len =
      let fits : leb next (length (grown_buffer fresh d next c)) ≡ true = ground arith in rw fits

-- `Write` at a head inside the data never fails: it moves the head behind the bytes, and leaves the
-- data as a file would be.
pub write-refines :
    (fresh : ℕ → ℕ) (bytes : Bytes) (d : StreamData) (index : ℕ)
    → IsValid d index
    → index + length bytes < half_word
    → (d' : StreamData) × (write fresh bytes d index ≡ some (d', index + length bytes))
      × IsValid d' (index + length bytes)
      × (contents d' ≡ overwrite index bytes (contents d))
      × (d'.size ≤ d.size + length bytes)
unfolding write
write-refines fresh bytes d index v h =
    let next = index + length bytes in
    let (c, eq, past, more, why) =
      grow_total (suc next) next d.capacity (omega arith) h (omega arith) (omega arith) in
    let len = length-grown_buffer fresh d index next c v why more past in
    let e : (index + length bytes) % word ≡ next = omega arith in
    (
      written fresh bytes d index next c,
      rw (e, eq) (write_grown-written fresh bytes d index c v past len),
      written-IsValid fresh bytes d index c v past len more,
      contents-written fresh bytes d index c v past len more,
      omega (arith, larger d.size next, v.inside),
    )

-- A new stream is an empty file.
pub new_stream_data-IsValid :
    (fresh : ℕ → ℕ) → IsValid (new_stream_data fresh) 0 × (contents (new_stream_data fresh) ≡ [])
unfolding new_stream_data
new_stream_data-IsValid fresh = (
  record { allocated = length-fresh_bytes fresh 0 1024; roomy = omega arith; inside = omega arith },
  refl,
)
