-- ===== src/Trace/Spm/Header.antt =====
-- `RgpFileChunkHeader` of source/trace/inc/rgp_file_format.h, as
-- source/trace/src/counters/rgp_derived_spm_database.cpp writes and reads it. A signed number is given by its
-- bits.
use radeon_developer_panel.Common.{
  ℕ, ◌%◌, ◌<◌, ◌≡◌, refl, List, [], ◌∷◌, ◌++◌, Option, some, ◌>>=◌, Bytes,
}
use mathlib.Core.List.{append_assoc}
use radeon_developer_panel.Trace.Spm.Words.{word_bytes, bound, read_value, read_value-word_bytes}
use radeon_developer_panel.Trace.Spm.Buffer.{
  Writer, write_value, write_all, Writes, write_all-Writes, Piece, value_piece, pieces_bytes,
}

pub record ChunkHeader : Type 0 where
  pub chunk_identifier : ℕ
  pub version_minor : ℕ
  pub version_major : ℕ
  pub size_in_bytes : ℕ
  pub padding : ℕ

-- `sizeof(RgpFileChunkHeader)`.
abbrev pub header_size : ℕ
header_size = 16

-- The bit field of the type: the low byte.
abbrev pub chunk_type : ChunkHeader → ℕ
chunk_type h = h.chunk_identifier % 256

unfoldable pub write_chunk_header : ChunkHeader → Writer
unfolding write_all write_value
write_chunk_header h = write_all (
    write_value 4 h.chunk_identifier
    ∷ write_value 2 h.version_minor
    ∷ write_value 2 h.version_major
    ∷ write_value 4 h.size_in_bytes
    ∷ write_value 4 h.padding
    ∷ [])

unfoldable pub read_chunk_header : Bytes → Option (ChunkHeader × Bytes)
unfolding read_value
read_chunk_header bytes = do
  (chunk_identifier, r1) ← read_value 4 bytes
  (version_minor, r2) ← read_value 2 r1
  (version_major, r3) ← read_value 2 r2
  (size_in_bytes, r4) ← read_value 4 r3
  (padding, r5) ← read_value 4 r4
  some (
    record {
      chunk_identifier = chunk_identifier;
      version_minor = version_minor;
      version_major = version_major;
      size_in_bytes = size_in_bytes;
      padding = padding;
    },
    r5,
  )

abbrev header_pieces : ChunkHeader → List Piece
header_pieces h =
    value_piece 4 h.chunk_identifier
    ∷ value_piece 2 h.version_minor
    ∷ value_piece 2 h.version_major
    ∷ value_piece 4 h.size_in_bytes
    ∷ value_piece 4 h.padding
    ∷ []

abbrev pub header_bytes : ChunkHeader → Bytes
header_bytes h = pieces_bytes (header_pieces h)

pub record Fits (h : ChunkHeader) : Type 0 where
  pub chunk_identifier : h.chunk_identifier < bound 4
  pub version_minor : h.version_minor < bound 2
  pub version_major : h.version_major < bound 2
  pub size_in_bytes : h.size_in_bytes < bound 4
  pub padding : h.padding < bound 4

pub write_chunk_header-Writes : (h : ChunkHeader) → Writes (write_chunk_header h) (header_bytes h)
unfolding write_chunk_header
write_chunk_header-Writes h = write_all-Writes (header_pieces h)

-- A header that is written is read back.
pub read_chunk_header-header_bytes :
    (h : ChunkHeader) (rest : Bytes)
    → Fits h
    → read_chunk_header (header_bytes h ++ rest) ≡ some (h, rest)
unfolding read_chunk_header
read_chunk_header-header_bytes h rest f =
    let e : header_bytes h ++ rest
        ≡ word_bytes 4 h.chunk_identifier
          ++ (word_bytes 2 h.version_minor
              ++ (word_bytes 2 h.version_major
                  ++ (word_bytes 4 h.size_in_bytes ++ (word_bytes 4 h.padding ++ rest)))) =
      simp (append_assoc) in
    rw
      (
        e,
        read_value-word_bytes 4 h.chunk_identifier
            (word_bytes 2 h.version_minor
              ++ (word_bytes 2 h.version_major
                  ++ (word_bytes 4 h.size_in_bytes ++ (word_bytes 4 h.padding ++ rest))))
            f.chunk_identifier,
        read_value-word_bytes 2 h.version_minor
            (word_bytes 2 h.version_major
              ++ (word_bytes 4 h.size_in_bytes ++ (word_bytes 4 h.padding ++ rest)))
            f.version_minor,
        read_value-word_bytes 2 h.version_major
            (word_bytes 4 h.size_in_bytes ++ (word_bytes 4 h.padding ++ rest)) f.version_major,
        read_value-word_bytes 4 h.size_in_bytes (word_bytes 4 h.padding ++ rest) f.size_in_bytes,
        read_value-word_bytes 4 h.padding rest f.padding,
      )
      refl
