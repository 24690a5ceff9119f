-- ===== src/Trace/Spm/Search.antt =====
-- `GetPointerToFirstChunkWithType` of source/trace/src/counters/rgp_derived_spm_database.cpp. A pointer into
-- the file is given by its distance from the start, which the loop converts to 64 bits without sign.
use radeon_developer_panel.Common.{
  ℕ, zero, suc, ◌+◌, ◌-◌, ◌^◌, ◌%◌, Option, none, some, Bytes, length, drop, ltb, ◌==◌,
  if◌then◌else◌,
}
use radeon_developer_panel.Trace.Spm.Words.{read_value}
use radeon_developer_panel.Trace.Spm.Header.{
  ChunkHeader, chunk_type, header_size, read_chunk_header,
}

-- What is returned; or the file is read past its end, which has no meaning in the source, or the fuel of the
-- loop does not suffice.
pub data Search : Type 0 where
  found : ℕ → Search
  parser_error overread unfinished : Search

-- A pointer is moved by a signed number of 32 bits, which is given by its bits.
abbrev pub move : ℕ → ℕ → ℕ
move pos n = (pos + (if ltb n (2 ^ 31) then n else n + (2 ^ 64 - 2 ^ 32))) % 2 ^ 64

abbrev pub at_header : (ℕ → Search) → ℕ → ℕ → Option (ChunkHeader × Bytes) → Search
at_header next type pos none = overread
at_header next type pos (some (h, rest)) =
    if ltb h.size_in_bytes header_size
    then parser_error
    else if chunk_type h == type
    then found pos
    else next (move pos h.size_in_bytes)

unfoldable pub search_loop : ℕ → Bytes → ℕ → ℕ → Search
unfolding read_chunk_header
search_loop zero file type pos = unfinished
search_loop (suc fuel) file type pos =
    if ltb pos (length file)
    then at_header (search_loop fuel file type) type pos (read_chunk_header (drop pos file))
    else parser_error

abbrev search_from : ℕ → Bytes → ℕ → Option (ℕ × Bytes) → Search
search_from fuel file type none = overread
search_from fuel file type (some (offset, rest)) = search_loop fuel file type (move 0 offset)

-- The offset of the first chunk stands after 16 bytes of the file.
unfoldable pub get_pointer_to_first_chunk_with_type : (fuel : ℕ) → Bytes → ℕ → Search
unfolding read_value search_loop
get_pointer_to_first_chunk_with_type fuel file type =
    search_from fuel file type (read_value 4 (drop header_size file))
