-- ===== src/Trace/Spm/Ends.antt =====
-- When the search for a chunk ends (source/trace/src/counters/rgp_derived_spm_database.cpp).
use radeon_developer_panel.Common.{
  ℕ, zero, suc, ◌+◌, ◌-◌, ◌^◌, ◌≤◌, ◌<◌, ◌≡◌, ◌≢◌, ◌⊎◌, refl, true, false, some, Bytes, length,
  drop, ltb, ◌==◌, arith, Bool-cases, inl, inr, Option-cases, ap, ◌∙◌, ltb→lt, lt→ltb,
}
use radeon_developer_panel.Trace.Spm.Words.{read_value}
use radeon_developer_panel.Trace.Spm.Header.{
  ChunkHeader, chunk_type, header_size, read_chunk_header,
}
use radeon_developer_panel.Trace.Spm.Search.{
  found, parser_error, unfinished, move, search_loop, get_pointer_to_first_chunk_with_type,
}

-- The search passes over a chunk of the file at one position and comes to the other.
pub record Passes (file : Bytes) (type pos next : ℕ) : Type 0 where
  pub header : ChunkHeader
  pub rest : Bytes
  pub inside : pos < length file
  pub reads : read_chunk_header (drop pos file) ≡ some (header, rest)
  pub whole : header_size ≤ header.size_in_bytes
  pub differs : (chunk_type header == type) ≡ false
  pub moves : next ≡ move pos header.size_in_bytes

-- The positions that the search comes to from one of them.
pub data Reaches (file : Bytes) (type start : ℕ) : ℕ → Type 0 where
  here : Reaches file type start start
  after :
      {pos next : ℕ}
      → Reaches file type start pos
      → Passes file type pos next
      → Reaches file type start next

-- A search from a position comes to a header whose size is negative.
abbrev pub MeetsNegative : Bytes → (type start : ℕ) → Type 0
MeetsNegative file type start =
    (pos : ℕ) × Reaches file type start pos
    × (h : ChunkHeader) × (rest : Bytes) × (read_chunk_header (drop pos file) ≡ some (h, rest))
    × (2 ^ 31 ≤ h.size_in_bytes)

-- The first position is the one that stands in the file.
abbrev pub StartsAt : Bytes → ℕ → Type 0
StartsAt file start =
    (offset : ℕ) × (rest : Bytes) × (read_value 4 (drop header_size file) ≡ some (offset, rest))
    × (start ≡ move 0 offset)

pub move-forward : (pos n : ℕ) → pos < 2 ^ 63 → n < 2 ^ 31 → move pos n ≡ pos + n
move-forward pos n p h = rw (lt→ltb n (2 ^ 31) h) (omega (arith, p, h))

ltb_false→le : (a b : ℕ) → ltb a b ≡ false → b ≤ a
ltb_false→le a b h = ground arith

search_loop-ends :
    (fuel : ℕ) (file : Bytes) (type start pos : ℕ)
    → Reaches file type start pos
    → length file < 2 ^ 63
    → length file - pos < fuel
    → (search_loop fuel file type pos ≢ unfinished) ⊎ MeetsNegative file type start
unfolding search_loop
search_loop-ends zero file type start pos q l f = absurd (omega (arith, f))
search_loop-ends (suc fuel) file type start pos q l f = elim (Bool-cases (ltb pos (length file))) [
  | inr b ↦ inl (λ e. cc (rw b at e))
  | inl b ↦ elim (Option-cases (read_chunk_header (drop pos file))) [
    | inl r ↦ inl (λ e. cc (rw (b, r) at e))
    | inr ((h, rest), r) ↦ elim (Bool-cases (ltb h.size_in_bytes header_size)) [
      | inl s ↦ inl (λ e. cc (rw (b, r, s) at e))
      | inr s ↦ elim (Bool-cases (chunk_type h == type)) [
        | inl t ↦ inl (λ e. cc (rw (b, r, s, t) at e))
        | inr t ↦ elim (Bool-cases (ltb h.size_in_bytes (2 ^ 31))) [
          | inr n ↦ inr (pos, q, h, rest, r, ltb_false→le h.size_in_bytes (2 ^ 31) n)
          | inl n ↦
              let here = ltb→lt pos (length file) b in
              let next =
                move-forward pos h.size_in_bytes (omega (arith, l, here))
                  (ltb→lt h.size_in_bytes (2 ^ 31) n) in
              let whole = ltb_false→le h.size_in_bytes header_size s in
              let passes : Passes file type pos (move pos h.size_in_bytes) = record {
                header = h;
                rest = rest;
                inside = here;
                reads = r;
                whole = whole;
                differs = t;
                moves = refl;
              } in
              elim (search_loop-ends fuel file type start (move pos h.size_in_bytes)
                (after q passes) l (omega (arith, f, here, next, whole))) [
                  | inl u ↦ inl (λ e. u (rw (b, r, s, t) at e))
                  | inr u ↦ inr u
                ]
        ]
      ]
    ]
  ]
]

-- The search ends within as many rounds as the file has bytes, and one more: it finds a chunk, reports an
-- error or reads past the end of the file; unless, passing from chunk to chunk from the first position, it
-- comes itself to a header whose size is negative.
pub get_pointer_to_first_chunk_with_type-ends :
    (file : Bytes) (type : ℕ)
    → length file < 2 ^ 63
    → (get_pointer_to_first_chunk_with_type (suc (length file)) file type ≢ unfinished)
      ⊎ ((start : ℕ) × StartsAt file start × MeetsNegative file type start)
unfolding get_pointer_to_first_chunk_with_type
get_pointer_to_first_chunk_with_type-ends file type l =
    elim (Option-cases (read_value 4 (drop header_size file))) [
      | inl r ↦ inl (λ e. cc (rw r at e))
      | inr ((offset, rest), r) ↦
          let start = move 0 offset in
          elim (search_loop-ends (suc (length file)) file type start start here l (omega arith)) [
            | inl u ↦ inl (λ e. u (rw r at e))
            | inr u ↦ inr (start, (offset, rest, r, refl), u)
          ]
    ]

pub search_loop-past :
    (fuel : ℕ) (file : Bytes) (type pos : ℕ)
    → length file ≤ pos
    → search_loop (suc fuel) file type pos ≡ parser_error
unfolding search_loop
search_loop-past fuel file type pos l =
    let past : ltb pos (length file) ≡ false = ground (arith, l) in rw past refl

pub search_loop-stops :
    (fuel : ℕ) (file : Bytes) (type pos : ℕ) (h : ChunkHeader) (rest : Bytes)
    → pos < length file
    → read_chunk_header (drop pos file) ≡ some (h, rest)
    → header_size ≤ h.size_in_bytes
    → (chunk_type h == type) ≡ true
    → search_loop (suc fuel) file type pos ≡ found pos
unfolding search_loop
search_loop-stops fuel file type pos h rest l e s t =
    let small : ltb h.size_in_bytes header_size ≡ false = ground (arith, s) in
    rw (lt→ltb pos (length file) l, e, small, t) refl

-- A round that passes over a chunk.
pub search_loop-passes :
    (fuel : ℕ) (file : Bytes) (type pos : ℕ) (h : ChunkHeader) (rest : Bytes)
    → pos < length file
    → read_chunk_header (drop pos file) ≡ some (h, rest)
    → header_size ≤ h.size_in_bytes
    → (chunk_type h == type) ≡ false
    → search_loop (suc fuel) file type pos ≡ search_loop fuel file type (move pos h.size_in_bytes)
unfolding search_loop
search_loop-passes fuel file type pos h rest l e s t =
    let small : ltb h.size_in_bytes header_size ≡ false = ground (arith, s) in
    rw (lt→ltb pos (length file) l, e, small, t) refl

move-back : (pos n : ℕ) → 16 ≤ n → n < 2 ^ 31 → pos + n < 2 ^ 63 → move (pos + n) (2 ^ 32 - n) ≡ pos
move-back pos n l h p =
    let back : ltb (2 ^ 32 - n) (2 ^ 31) ≡ false = ground (arith, h) in
    rw back (omega (arith, l, h, p))

-- Where a header has a negative size that leads back to the header before it, and neither has the type,
-- the search never ends, however long it runs: the check for a size below that of a header does not see
-- that the size is negative.
pub search_loop-unfinished :
    (fuel : ℕ) (file : Bytes) (type pos : ℕ) (g h : ChunkHeader) (r s : Bytes)
    → length file < 2 ^ 63
    → pos + g.size_in_bytes < length file
    → read_chunk_header (drop pos file) ≡ some (g, r)
    → read_chunk_header (drop (pos + g.size_in_bytes) file) ≡ some (h, s)
    → header_size ≤ g.size_in_bytes
    → g.size_in_bytes < 2 ^ 31
    → h.size_in_bytes ≡ 2 ^ 32 - g.size_in_bytes
    → (chunk_type g == type) ≡ false
    → (chunk_type h == type) ≡ false
    → (search_loop fuel file type pos ≡ unfinished)
      × (search_loop fuel file type (pos + g.size_in_bytes) ≡ unfinished)
unfolding search_loop
search_loop-unfinished zero file type pos g h r s l p eg eh ge lt m tg th = (refl, refl)
search_loop-unfinished (suc fuel) file type pos g h r s l p eg eh ge lt m tg th =
    let ih = search_loop-unfinished fuel file type pos g h r s l p eg eh ge lt m tg th in
    let here : pos < length file = omega (arith, p) in
    let next = pos + g.size_in_bytes in
    let h_size : header_size ≤ h.size_in_bytes = omega (arith, m, lt) in
    let back : move next h.size_in_bytes ≡ pos =
      ap (move next) m ∙ move-back pos g.size_in_bytes ge lt (omega (arith, p, l)) in
    (
      search_loop-passes fuel file type pos g r here eg ge tg
          ∙ ap (search_loop fuel file type)
              (move-forward pos g.size_in_bytes (omega (arith, p, l)) lt)
          ∙ ih.1,
      search_loop-passes fuel file type next h s p eh h_size th
          ∙ ap (search_loop fuel file type) back
          ∙ ih.0,
    )
