-- ===== src/Trace/Spm/Pieces.antt =====
-- What the helpers of source/trace/src/counters/rgp_derived_spm_database.cpp write, and how many bytes.
use radeon_developer_panel.Common.{
  ℕ, ◌+◌, ◌-◌, ◌*◌, ◌^◌, ◌<◌, ◌≡◌, refl, ap, ap₂, ◌∙◌, sym, true, List, [], ◌∷◌, ◌++◌, Option, none,
  some, ◌>>=◌, Bytes, length, length-append, take, leb, find_key, has_key, value_or, is_some, arith,
  All,
}
use mathlib.Core.List.{append_assoc, append-nil}
use radeon_developer_panel.Trace.Spm.Words.{word_bytes, length-word_bytes}
use radeon_developer_panel.Trace.Spm.Buffer.{
  Buffer, Writer, write_values, write_chars, words, Writes, write_bytes-Writes, Piece, pieces_bytes,
}
use radeon_developer_panel.Trace.Spm.Serialize.{u32, IndexMap, find_each, write_indices, write_each}

pub u32_small : (n : ℕ) → n < 2 ^ 32 → u32 n ≡ n
u32_small n h = omega (arith, h)

pub take_all {ℓ} : {A : Type ℓ} (xs : List A) → take (length xs) xs ≡ xs
take_all [] = refl
take_all (x ∷ xs) = ap (λ ys. x ∷ ys) (take_all xs)

leb_self : (n : ℕ) → leb n n ≡ true
leb_self n = ground arith

pub write_chars-Writes :
    (text : Bytes) → length text < 2 ^ 32 → Writes (write_chars (u32 (length text)) text) text
unfolding write_chars
write_chars-Writes text h b l =
    rw (u32_small (length text) h, leb_self (length text), take_all text)
      (write_bytes-Writes text b l)

abbrev pub chars_piece : (text : Bytes) → length text < 2 ^ 32 → Piece
chars_piece text h = record {
  writer = write_chars (u32 (length text)) text;
  bytes = text;
  writes = write_chars-Writes text h;
}

pub write_values-Writes :
    (w count : ℕ) (vs : List ℕ) → count ≡ length vs → Writes (write_values w count vs) (words w vs)
unfolding write_values
write_values-Writes w count vs h b l =
    rw (h, leb_self (length vs), take_all vs) (write_bytes-Writes (words w vs) b l)

abbrev pub values_piece : (w count : ℕ) (vs : List ℕ) → count ≡ length vs → Piece
values_piece w count vs h = record {
  writer = write_values w count vs;
  bytes = words w vs;
  writes = write_values-Writes w count vs h;
}

-- Every counter has an index.
abbrev pub AllFound : IndexMap → List ℕ → Type 0
AllFound indices ids = All (λ id. has_key indices id ≡ true) ids

abbrev pub index_list : IndexMap → List ℕ → List ℕ
index_list indices [] = []
index_list indices (id ∷ ids) = value_or 0 (find_key indices id) ∷ index_list indices ids

length-index_list :
    (indices : IndexMap) (ids : List ℕ) → length (index_list indices ids) ≡ length ids
length-index_list indices [] = refl
length-index_list indices (id ∷ ids) = omega (arith, length-index_list indices ids)

found_value : (o : Option ℕ) → is_some o ≡ true → o ≡ some (value_or 0 o)
found_value none h = cc
found_value (some i) h = refl

find_each-index_list :
    (indices : IndexMap) (ids : List ℕ)
    → AllFound indices ids
    → find_each indices ids ≡ some (index_list indices ids)
unfolding find_each
find_each-index_list indices [] h = refl
find_each-index_list indices (id ∷ ids) h =
    rw (found_value (find_key indices id) h.0, find_each-index_list indices ids h.1) refl

pub write_indices-Writes :
    (indices : IndexMap) (ids : List ℕ)
    → AllFound indices ids
    → length ids < 2 ^ 32
    → Writes (write_indices indices (u32 (length ids)) ids) (words 4 (index_list indices ids))
unfolding write_indices
write_indices-Writes indices ids f h b l = rw (find_each-index_list indices ids f) (
    write_values-Writes 4 (u32 (length ids)) (index_list indices ids)
      (u32_small (length ids) h ∙ sym (length-index_list indices ids)) b l)

abbrev pub indices_piece :
    (indices : IndexMap) (ids : List ℕ) → AllFound indices ids → length ids < 2 ^ 32 → Piece
indices_piece indices ids f h = record {
  writer = write_indices indices (u32 (length ids)) ids;
  bytes = words 4 (index_list indices ids);
  writes = write_indices-Writes indices ids f h;
}

-- What a loop writes.
abbrev pub each_bytes {ℓ} : {A : Type ℓ} → (A → Bytes) → List A → Bytes
each_bytes bytes [] = []
each_bytes bytes (x ∷ xs) = bytes x ++ each_bytes bytes xs

pub write_each-Writes {ℓ} :
    {A : Type ℓ} (write : A → Writer) (bytes : A → Bytes) (xs : List A)
    → All (λ x. Writes (write x) (bytes x)) xs
    → Writes (write_each write xs) (each_bytes bytes xs)
unfolding write_each
write_each-Writes write bytes [] h b l =
    let room : b.room ≡ b.room - 0 = omega arith in
    ap₂ (λ written room. some (record { written = written; room = room }))
      (sym (append-nil b.written)) room
write_each-Writes write bytes (x ∷ xs) h b l =
    let n = length-append (bytes x) (each_bytes bytes xs) in
    let b' : Buffer = record { written = b.written ++ bytes x; room = b.room - length (bytes x) } in
    let room : b'.room - length (each_bytes bytes xs)
        ≡ b.room - length (bytes x ++ each_bytes bytes xs) =
      omega (arith, n) in
    ap (λ o. o >>= write_each write xs) (h.0 b (omega (arith, l, n)))
    ∙ write_each-Writes write bytes xs h.1 b' (omega (arith, l, n))
    ∙ ap₂ (λ written room. some (record { written = written; room = room }))
        (append_assoc b.written (bytes x) (each_bytes bytes xs)) room

abbrev pub pieces_length : List Piece → ℕ
pieces_length [] = 0
pieces_length (p ∷ ps) = length p.bytes + pieces_length ps

pub length-pieces_bytes : (ps : List Piece) → length (pieces_bytes ps) ≡ pieces_length ps
length-pieces_bytes [] = refl
length-pieces_bytes (p ∷ ps) =
    omega (arith, length-append p.bytes (pieces_bytes ps), length-pieces_bytes ps)

pub length-words4 : (vs : List ℕ) → length (words 4 vs) ≡ length vs * 4
length-words4 [] = refl
length-words4 (v ∷ vs) =
    omega
      (arith, length-append (word_bytes 4 v) (words 4 vs), length-word_bytes 4 v, length-words4 vs)

pub length-words8 : (vs : List ℕ) → length (words 8 vs) ≡ length vs * 8
length-words8 [] = refl
length-words8 (v ∷ vs) =
    omega
      (arith, length-append (word_bytes 8 v) (words 8 vs), length-word_bytes 8 v, length-words8 vs)

pub length-indices :
    (indices : IndexMap) (ids : List ℕ) → length (words 4 (index_list indices ids)) ≡ length ids * 4
length-indices indices ids =
    omega (arith, length-words4 (index_list indices ids), length-index_list indices ids)
