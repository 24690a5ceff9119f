-- ===== src/Trace/Spm/File.antt =====
-- Trace files of whole chunks, in which source/trace/src/counters/rgp_derived_spm_database.cpp searches for a
-- chunk and at whose end it appends another.
use radeon_developer_panel.Common.{
  ℕ, suc, ◌+◌, ◌^◌, ◌≤◌, ◌<◌, ◌≡◌, refl, Bool, true, false, List, [], ◌∷◌, ◌++◌, some, Bytes,
  length, length-append, drop, ◌==◌, if◌then◌else◌, arith, Bool-cases, inl, inr, ap, ◌∙◌, sym,
  subst, ==_iff, All,
}
use mathlib.Core.List.{append_assoc, append-nil}
use radeon_developer_panel.Trace.Spm.Words.{
  bound, word_bytes, length-word_bytes, read_value, read_value-word_bytes,
}
use radeon_developer_panel.Trace.Spm.Header.{chunk_type, header_size}
use radeon_developer_panel.Trace.Spm.Search.{
  found, search_loop, get_pointer_to_first_chunk_with_type,
}
use radeon_developer_panel.Trace.Spm.Ends.{move-forward}
use radeon_developer_panel.Trace.Spm.Find.{
  Chunk, chunk_bytes, chunks_bytes, IsWhole, first_of, length-chunk_bytes, drop-append,
  search_loop-first_of,
}

-- A file: what its header has before and after the offset of the first chunk, and the chunks.
pub record TraceFile : Type 0 where
  pub start : Bytes
  pub rest : Bytes
  pub chunks : List Chunk

-- The offset in the header: its own place, its size and what follows.
abbrev pub chunk_offset : TraceFile → ℕ
chunk_offset f = 20 + length f.rest

abbrev pub file_header : TraceFile → Bytes
file_header f = f.start ++ (word_bytes 4 (chunk_offset f) ++ f.rest)

abbrev pub file_bytes : TraceFile → Bytes
file_bytes f = file_header f ++ chunks_bytes f.chunks

pub record IsFile (f : TraceFile) : Type 0 where
  pub start : length f.start ≡ header_size
  pub offset : chunk_offset f < 2 ^ 31
  pub whole : All IsWhole f.chunks
  pub small : length (file_bytes f) < 2 ^ 63

length-file_header : (f : TraceFile) → IsFile f → length (file_header f) ≡ chunk_offset f
length-file_header f i = omega (
  arith,
  i.start,
  length-append f.start (word_bytes 4 (chunk_offset f) ++ f.rest),
  length-append (word_bytes 4 (chunk_offset f)) f.rest,
  length-word_bytes 4 (chunk_offset f),
)

count_chunks : (cs : List Chunk) → All IsWhole cs → length cs ≤ length (chunks_bytes cs)
count_chunks [] w = omega arith
count_chunks (c ∷ cs) w = omega (
  arith,
  count_chunks cs w.1,
  length-append (chunk_bytes c) (chunks_bytes cs),
  length-chunk_bytes c w.0,
  w.0.size,
)

read_offset :
    (f : TraceFile)
    → IsFile f
    → read_value 4 (drop header_size (file_bytes f))
      ≡ some (chunk_offset f, f.rest ++ chunks_bytes f.chunks)
read_offset f i =
    let off = word_bytes 4 (chunk_offset f) in
    let tail = f.rest ++ chunks_bytes f.chunks in
    let joined : file_bytes f ≡ f.start ++ (off ++ tail) = simp append_assoc in
    let small : chunk_offset f < bound 4 = omega (arith, i.offset) in
    ap (λ bytes. read_value 4 (drop header_size bytes)) joined
    ∙ ap (λ n. read_value 4 (drop n (f.start ++ (off ++ tail)))) (sym i.start)
    ∙ ap (read_value 4) (drop-append f.start (off ++ tail))
    ∙ read_value-word_bytes 4 (chunk_offset f) tail small

-- In a file of whole chunks the search gives the place of the first chunk of the type, and an error if
-- there is none.
pub get_pointer_to_first_chunk_with_type-first_of :
    (f : TraceFile) (type : ℕ)
    → IsFile f
    → get_pointer_to_first_chunk_with_type (suc (length (file_bytes f))) (file_bytes f) type
      ≡ first_of type (chunk_offset f) f.chunks
unfolding get_pointer_to_first_chunk_with_type
get_pointer_to_first_chunk_with_type-first_of f type i =
    let file = file_bytes f in
    let n = length-file_header f i in
    let begin : 0 + chunk_offset f ≡ length (file_header f) = omega (arith, n) in
    let enough : length f.chunks < suc (length file) = omega (
      arith,
      count_chunks f.chunks i.whole,
      length-append (file_header f) (chunks_bytes f.chunks),
    ) in
    rw (read_offset f i) (
      ap (search_loop (suc (length file)) file type)
        (move-forward 0 (chunk_offset f) (omega arith) i.offset ∙ begin)
      ∙ search_loop-first_of (suc (length file)) (file_header f) type f.chunks i.whole i.small
          enough
      ∙ ap (λ pos. first_of type pos f.chunks) n)

abbrev pub has_type : ℕ → List Chunk → Bool
has_type type [] = false
has_type type (c ∷ cs) = if chunk_type c.header == type then true else has_type type cs

first_of-append_one :
    (type pos : ℕ) (cs : List Chunk) (c : Chunk)
    → has_type type cs ≡ false
    → (chunk_type c.header == type) ≡ true
    → first_of type pos (cs ++ c ∷ []) ≡ found (pos + length (chunks_bytes cs))
first_of-append_one type pos [] c n t =
    let here : pos ≡ pos + 0 = omega arith in rw t (ap found here)
first_of-append_one type pos (d ∷ cs) c n t = elim (Bool-cases (chunk_type d.header == type)) [
  | inl e ↦ cc (rw e at n)
  | inr e ↦
      let p = pos + length (chunk_bytes d) in
      let ih = first_of-append_one type p cs c (rw e at n) t in
      let sum : p + length (chunks_bytes cs) ≡ pos + length (chunk_bytes d ++ chunks_bytes cs) =
        omega (arith, length-append (chunk_bytes d) (chunks_bytes cs)) in
      rw e (ih ∙ ap found sum)
]

abbrev pub append_chunk : TraceFile → Chunk → TraceFile
append_chunk f c = record f { chunks = f.chunks ++ c ∷ [] }

chunks_bytes-append_one :
    (cs : List Chunk) (c : Chunk) → chunks_bytes (cs ++ c ∷ []) ≡ chunks_bytes cs ++ chunk_bytes c
chunks_bytes-append_one [] c = append-nil (chunk_bytes c)
chunks_bytes-append_one (d ∷ cs) c =
    ap (λ bytes. chunk_bytes d ++ bytes) (chunks_bytes-append_one cs c)
    ∙ sym (append_assoc (chunk_bytes d) (chunks_bytes cs) (chunk_bytes c))

file_bytes-append_chunk :
    (f : TraceFile) (c : Chunk) → file_bytes (append_chunk f c) ≡ file_bytes f ++ chunk_bytes c
file_bytes-append_chunk f c =
    ap (λ bytes. file_header f ++ bytes) (chunks_bytes-append_one f.chunks c)
    ∙ sym (append_assoc (file_header f) (chunks_bytes f.chunks) (chunk_bytes c))

append_one-All :
    (cs : List Chunk) (c : Chunk) → All IsWhole cs → IsWhole c → All IsWhole (cs ++ c ∷ [])
append_one-All [] c w v = (v, tt)
append_one-All (d ∷ cs) c w v = (w.0, append_one-All cs c w.1 v)

-- A chunk that is appended to a file without one of its type is found where the file ended.
pub get_pointer_to_first_chunk_with_type-append_chunk :
    (f : TraceFile) (c : Chunk)
    → IsFile f
    → IsWhole c
    → has_type (chunk_type c.header) f.chunks ≡ false
    → length (file_bytes f ++ chunk_bytes c) < 2 ^ 63
    → get_pointer_to_first_chunk_with_type
        (suc (length (file_bytes f ++ chunk_bytes c)))
        (file_bytes f ++ chunk_bytes c)
        (chunk_type c.header)
      ≡ found (length (file_bytes f))
get_pointer_to_first_chunk_with_type-append_chunk f c i w n l =
    let type = chunk_type c.header in
    let joined = file_bytes-append_chunk f c in
    let i' : IsFile (append_chunk f c) = record {
      start = i.start;
      offset = i.offset;
      whole = append_one-All f.chunks c i.whole w;
      small = subst (λ bytes. length bytes < 2 ^ 63) (sym joined) l;
    } in
    let sum : chunk_offset f + length (chunks_bytes f.chunks) ≡ length (file_bytes f) =
      omega
        (arith, length-file_header f i, length-append (file_header f) (chunks_bytes f.chunks)) in
    ap (λ bytes. get_pointer_to_first_chunk_with_type (suc (length bytes)) bytes type) (sym joined)
    ∙ get_pointer_to_first_chunk_with_type-first_of (append_chunk f c) type i'
    ∙ first_of-append_one type (chunk_offset f) f.chunks c n ((==_iff type type).1 refl)
    ∙ ap found sum
