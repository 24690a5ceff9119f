-- ===== src/Trace/Spm/Find.antt =====
-- What the search for a chunk finds in a file of whole chunks
-- (source/trace/src/counters/rgp_derived_spm_database.cpp).
use radeon_developer_panel.Common.{
  ℕ, zero, suc, ◌+◌, ◌^◌, ◌≤◌, ◌<◌, ◌≡◌, refl, List, [], ◌∷◌, ◌++◌, some, Bytes, length,
  length-append, drop, ◌==◌, if◌then◌else◌, arith, Bool-cases, inl, inr, ap, ap₂, ◌∙◌, sym, subst,
  All,
}
use mathlib.Core.List.{append_assoc}
use radeon_developer_panel.Trace.Spm.Words.{word_bytes, length-word_bytes}
use radeon_developer_panel.Trace.Spm.Header.{
  ChunkHeader, chunk_type, header_size, header_bytes, Fits, read_chunk_header,
  read_chunk_header-header_bytes,
}
use radeon_developer_panel.Trace.Spm.Search.{Search, found, parser_error, search_loop}
use radeon_developer_panel.Trace.Spm.Ends.{
  move-forward, search_loop-past, search_loop-stops, search_loop-passes,
}

pub record Chunk : Type 0 where
  pub header : ChunkHeader
  pub payload : Bytes

abbrev pub chunk_bytes : Chunk → Bytes
chunk_bytes c = header_bytes c.header ++ c.payload

abbrev pub chunks_bytes : List Chunk → Bytes
chunks_bytes [] = []
chunks_bytes (c ∷ cs) = chunk_bytes c ++ chunks_bytes cs

-- The size in the header is the chunk's.
pub record IsWhole (c : Chunk) : Type 0 where
  pub fits : Fits c.header
  pub size : c.header.size_in_bytes ≡ header_size + length c.payload
  pub small : c.header.size_in_bytes < 2 ^ 31

-- Where the first chunk of a type stands.
abbrev pub first_of : ℕ → ℕ → List Chunk → Search
first_of type pos [] = parser_error
first_of type pos (c ∷ cs) =
    if chunk_type c.header == type
    then found pos
    else first_of type (pos + length (chunk_bytes c)) cs

pub length-header_bytes : (h : ChunkHeader) → length (header_bytes h) ≡ header_size
length-header_bytes h =
    let r0 = word_bytes 4 h.padding ++ [] in
    let r1 = word_bytes 4 h.size_in_bytes ++ r0 in
    let r2 = word_bytes 2 h.version_major ++ r1 in
    let r3 = word_bytes 2 h.version_minor ++ r2 in
    omega (
      arith,
      length-append (word_bytes 4 h.chunk_identifier) r3,
      length-append (word_bytes 2 h.version_minor) r2,
      length-append (word_bytes 2 h.version_major) r1,
      length-append (word_bytes 4 h.size_in_bytes) r0,
      length-append (word_bytes 4 h.padding) [],
      length-word_bytes 4 h.chunk_identifier,
      length-word_bytes 2 h.version_minor,
      length-word_bytes 2 h.version_major,
      length-word_bytes 4 h.size_in_bytes,
      length-word_bytes 4 h.padding,
    )

pub length-chunk_bytes : (c : Chunk) → IsWhole c → length (chunk_bytes c) ≡ c.header.size_in_bytes
length-chunk_bytes c w =
    omega
      (arith, length-append (header_bytes c.header) c.payload, length-header_bytes c.header, w.size)

pub drop-append : (xs ys : Bytes) → drop (length xs) (xs ++ ys) ≡ ys
drop-append [] ys = refl
drop-append (x ∷ xs) ys = drop-append xs ys

pub read_chunk_header-append :
    (before : Bytes) (c : Chunk) (rest : Bytes)
    → IsWhole c
    → read_chunk_header (drop (length before) (before ++ (chunk_bytes c ++ rest)))
      ≡ some (c.header, c.payload ++ rest)
read_chunk_header-append before c rest w =
    ap read_chunk_header (
      drop-append before (chunk_bytes c ++ rest)
      ∙ append_assoc (header_bytes c.header) c.payload rest)
    ∙ read_chunk_header-header_bytes c.header (c.payload ++ rest) w.fits

pub search_loop-first_of :
    (fuel : ℕ) (before : Bytes) (type : ℕ) (cs : List Chunk)
    → All IsWhole cs
    → length (before ++ chunks_bytes cs) < 2 ^ 63
    → length cs < fuel
    → search_loop fuel (before ++ chunks_bytes cs) type (length before)
      ≡ first_of type (length before) cs
search_loop-first_of zero before type cs w l f = absurd (omega (arith, f))
search_loop-first_of (suc fuel) before type [] w l f =
    search_loop-past fuel (before ++ []) type (length before)
      (omega (arith, length-append before []))
search_loop-first_of (suc fuel) before type (c ∷ cs) w l f =
    let rest = chunks_bytes cs in
    let file = before ++ (chunk_bytes c ++ rest) in
    let size = length-chunk_bytes c w.0 in
    let sum = length-append before (chunk_bytes c ++ rest) in
    let sum2 = length-append (chunk_bytes c) rest in
    let large : header_size ≤ c.header.size_in_bytes = omega (arith, w.0.size) in
    let here : length before < length file = omega (arith, sum, sum2, size, large) in
    let r = read_chunk_header-append before c rest w.0 in
    let here2 : length before < 2 ^ 63 = omega (arith, here, l) in
    let next = ap (λ n. length before + n) (sym size) in
    let pos = move-forward (length before) c.header.size_in_bytes here2 w.0.small in
    let joined = append_assoc before (chunk_bytes c) rest in
    let len = length-append before (chunk_bytes c) in
    let at_next = pos ∙ next ∙ sym len in
    let ih =
      search_loop-first_of fuel (before ++ chunk_bytes c) type cs w.1
        (subst (λ file. length file < 2 ^ 63) (sym joined) l) (omega (arith, f)) in
    elim (Bool-cases (chunk_type c.header == type)) [
      | inl t ↦
          search_loop-stops fuel file type (length before) c.header (c.payload ++ rest) here r large
            t
          ∙ rw t refl
      | inr t ↦
          search_loop-passes fuel file type (length before) c.header (c.payload ++ rest) here r
            large t
          ∙ ap₂ (λ file pos. search_loop fuel file type pos) (sym joined) at_next
          ∙ ih
          ∙ ap (λ pos. first_of type pos cs) len
          ∙ rw t refl
    ]
