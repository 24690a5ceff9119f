-- ===== src/Api/Stream/Memory.antt =====
-- `MemoryReadWriteStream` of source/api/api_trace_io.cpp over its `StreamData`. Memory is a list of
-- bytes; `fresh i` is what stands in byte `i` of an allocation before anything is written there.
-- `none` is a fault: a copy outside the buffer, or the loop of `Write` going on for ever.
use radeon_developer_panel.Common.{
  ℕ, zero, suc, ◌+◌, ◌-◌, ◌*◌, ◌%◌, ◌^◌, Bool, true, false, [], ◌∷◌, ◌++◌, Option, none, some, leb,
  ltb, if◌then◌else◌, Bytes, length, take, drop,
}

-- One more than the largest `size_t`.
abbrev pub word : ℕ
word = 2 ^ 64

-- One more than the largest `int64_t`.
abbrev pub half_word : ℕ
half_word = 2 ^ 63

-- An `int64_t`; `negsuc n` is -(n + 1).
pub data ℤ : Type 0 where
  pos : ℕ → ℤ
  negsuc : ℕ → ℤ

pub record StreamData : Type 0 where
  pub buffer : Bytes
  pub capacity : ℕ
  pub size : ℕ
  pub is_open : Bool

-- `kInitialBufferSize`.
abbrev pub initial_buffer_size : ℕ
initial_buffer_size = 1024

-- `n` bytes of fresh memory, from byte `i` on.
unfoldable pub fresh_bytes : (ℕ → ℕ) → ℕ → ℕ → Bytes
fresh_bytes fresh i zero = []
fresh_bytes fresh i (suc n) = fresh i ∷ fresh_bytes fresh (suc i) n

-- `ApiRealloc`: the bytes are kept as far as they fit. That `std::realloc` returns null, which `Write` does
-- not test, is left out: memory never runs out.
unfoldable pub api_realloc : (ℕ → ℕ) → Bytes → ℕ → Bytes
unfolding fresh_bytes
api_realloc fresh buffer n = take n buffer ++ fresh_bytes fresh (length buffer) (n - length buffer)

-- `while (next_position >= capacity) capacity *= 2;`
unfoldable pub grow : ℕ → ℕ → ℕ → Option ℕ
grow zero next_position capacity = none
grow (suc fuel) next_position capacity =
    let again = grow fuel next_position ((capacity * 2) % word) in
    if leb capacity next_position then again else some capacity

-- `memcpy(buffer + i, bytes, count)` inside the buffer.
unfoldable pub copy_to : ℕ → Bytes → Bytes → Bytes
copy_to i bytes [] = []
copy_to zero [] (b ∷ buffer) = b ∷ buffer
copy_to zero (x ∷ bytes) (b ∷ buffer) = x ∷ copy_to zero bytes buffer
copy_to (suc i) bytes (b ∷ buffer) = b ∷ copy_to i bytes buffer

-- `Write` once the capacity is known.
unfoldable pub write_grown :
    (ℕ → ℕ) → Bytes → StreamData → ℕ → ℕ → Option ℕ → Option (StreamData × ℕ)
unfolding api_realloc copy_to
write_grown fresh bytes d index next none = none
write_grown fresh bytes d index next (some capacity) =
    let buffer = if leb d.capacity next then api_realloc fresh d.buffer capacity else d.buffer in
    if leb (index + length bytes) (length buffer)
    then some (
      record d {
        buffer = copy_to index bytes buffer;
        capacity = capacity;
        size = if ltb d.size next then next else d.size;
      },
      next,
    )
    else none

-- `Write`: the data and the head index after it. It reports `count` bytes written and true.
unfoldable pub write : (ℕ → ℕ) → Bytes → StreamData → ℕ → Option (StreamData × ℕ)
unfolding write_grown grow
write fresh bytes d index =
    let next = (index + length bytes) % word in
    write_grown fresh bytes d index next (grow (suc next) next d.capacity)

-- The outcome of `Read`: false, or the bytes and the new head index; or a copy outside the buffer.
pub data ReadResult : Type 0 where
  refused fault : ReadResult
  bytes_read : Bytes → ℕ → ReadResult

unfoldable pub read : ℕ → StreamData → ℕ → ReadResult
read count d index =
    let end_position = (index + count) % word in
    if ltb d.size end_position
    then refused
    else if leb (index + count) (length d.buffer)
    then bytes_read (take count (drop index d.buffer)) end_position
    else fault

-- `static_cast<int64_t>` of a `size_t`, and back.
abbrev pub as_int64 : ℕ → ℤ
as_int64 n = if ltb n half_word then pos n else negsuc (word - suc n)

abbrev pub as_size : ℤ → ℕ
as_size (pos n) = n
as_size (negsuc n) = word - suc n

-- `a > b`, as signed numbers.
abbrev pub gtb : ℤ → ℤ → Bool
gtb (pos a) (pos b) = ltb b a
gtb (pos a) (negsuc b) = true
gtb (negsuc a) (pos b) = false
gtb (negsuc a) (negsuc b) = ltb a b

unfoldable pub seek : ℤ → StreamData → ℕ → Bool × ℕ
seek position d index =
    if gtb position (as_int64 d.size) then (false, index) else (true, as_size position)

unfoldable pub tell : StreamData → ℕ → ℕ
tell d index = index

unfoldable pub get_size : StreamData → ℕ
get_size d = d.size

-- What `CreateStream` allocates.
unfoldable pub new_stream_data : (ℕ → ℕ) → StreamData
unfolding fresh_bytes
new_stream_data fresh = record {
  buffer = fresh_bytes fresh 0 initial_buffer_size;
  capacity = initial_buffer_size;
  size = 0;
  is_open = false;
}
