-- ===== src/Trace/Spm/Buffer.antt =====
-- Writing to a buffer of a fixed size as source/trace/src/counters/rgp_derived_spm_database.cpp does: a
-- pointer moves over it from its start. A buffer is given by the bytes before the pointer and the number
-- of bytes after it, which are still zero; a write past its end gives nothing.
use radeon_developer_panel.Common.{
  ℕ, ◌-◌, ◌≤◌, ◌≡◌, ap, ap₂, ◌∙◌, sym, List, [], ◌∷◌, ◌++◌, Option, none, some, ◌>>=◌, Bytes,
  length, length-append, replicate, take, leb, if◌then◌else◌, arith,
}
use mathlib.Core.List.{append_assoc, append-nil}
use radeon_developer_panel.Trace.Spm.Words.{word_bytes}

pub record Buffer : Type 0 where
  pub written : Bytes
  pub room : ℕ

-- A buffer of zeros with the pointer at its start.
abbrev pub new_buffer : ℕ → Buffer
new_buffer size = record { written = []; room = size }

-- The buffer as a vector.
abbrev pub contents : Buffer → Bytes
contents b = b.written ++ replicate b.room 0

abbrev pub Writer : Type 0
Writer = Buffer → Option Buffer

-- `WriteValue` of bytes that are in memory.
unfoldable pub write_bytes : Bytes → Writer
write_bytes bytes b =
    if leb (length bytes) b.room
    then some (record { written = b.written ++ bytes; room = b.room - length bytes })
    else none

-- `WriteValue<T>` of one value.
unfoldable pub write_value : (w : ℕ) → ℕ → Writer
unfolding write_bytes word_bytes
write_value w v = write_bytes (word_bytes w v)

abbrev pub words : (w : ℕ) → List ℕ → Bytes
words w [] = []
words w (v ∷ vs) = word_bytes w v ++ words w vs

-- `WriteValue<T>` of the first values of an array; to read past its end gives nothing.
unfoldable pub write_values : (w : ℕ) → ℕ → List ℕ → Writer
unfolding write_bytes word_bytes
write_values w count vs b =
    if leb count (length vs) then write_bytes (words w (take count vs)) b else none

-- `WriteValue<char>` of the first characters of a string.
unfoldable pub write_chars : ℕ → Bytes → Writer
unfolding write_bytes
write_chars count text b = if leb count (length text) then write_bytes (take count text) b else none

unfoldable pub write_all : List Writer → Writer
write_all [] b = some b
write_all (w ∷ ws) b = w b >>= write_all ws

-- A writer writes these bytes wherever there is room for them.
abbrev pub Writes : Writer → Bytes → Type 0
Writes w bytes =
    (b : Buffer)
    → length bytes ≤ b.room
    → w b ≡ some (record { written = b.written ++ bytes; room = b.room - length bytes })

pub write_bytes-Writes : (bytes : Bytes) → Writes (write_bytes bytes) bytes
unfolding write_bytes
write_bytes-Writes bytes b h = ground (arith, h)

pub write_value-Writes : (w v : ℕ) → Writes (write_value w v) (word_bytes w v)
unfolding write_value
write_value-Writes w v = write_bytes-Writes (word_bytes w v)

-- A writer with what it writes.
pub record Piece : Type 0 where
  pub writer : Writer
  pub bytes : Bytes
  pub writes : Writes writer bytes

abbrev pub writers : List Piece → List Writer
writers [] = []
writers (p ∷ ps) = p.writer ∷ writers ps

abbrev pub pieces_bytes : List Piece → Bytes
pieces_bytes [] = []
pieces_bytes (p ∷ ps) = p.bytes ++ pieces_bytes ps

pub write_all-Writes : (ps : List Piece) → Writes (write_all (writers ps)) (pieces_bytes ps)
unfolding write_all
write_all-Writes [] b l =
    let room : b.room ≡ b.room - 0 = omega arith in
    ap₂ (λ written room. some (record { written = written; room = room }))
      (sym (append-nil b.written)) room
write_all-Writes (p ∷ ps) b l =
    let n = length-append p.bytes (pieces_bytes ps) in
    let b' : Buffer = record { written = b.written ++ p.bytes; room = b.room - length p.bytes } in
    let room : b'.room - length (pieces_bytes ps) ≡ b.room - length (p.bytes ++ pieces_bytes ps) =
      omega (arith, n) in
    ap (λ o. o >>= write_all (writers ps)) (p.writes b (omega (arith, l, n)))
    ∙ write_all-Writes ps b' (omega (arith, l, n))
    ∙ ap₂ (λ written room. some (record { written = written; room = room }))
        (append_assoc b.written p.bytes (pieces_bytes ps)) room

abbrev pub value_piece : (w : ℕ) → ℕ → Piece
value_piece w v = record {
  writer = write_value w v;
  bytes = word_bytes w v;
  writes = write_value-Writes w v;
}
