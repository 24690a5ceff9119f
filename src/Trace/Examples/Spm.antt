-- ===== src/Trace/Examples/Spm.antt =====
-- The theorems on source/trace/src/counters/rgp_derived_spm_database.cpp at concrete inputs.
use radeon_developer_panel.Common.{
  ℕ, suc, ◌-◌, ◌^◌, ◌≡◌, ◌≢◌, ◌⊎◌, refl, [], ◌∷◌, ◌++◌, some, Bytes, codes, length, arith, find_key,
  has_id,
}
use radeon_developer_panel.Trace.Spm.Words.{word_bytes, word_of, read_value}
use radeon_developer_panel.Trace.Spm.Buffer.{Buffer, new_buffer}
use radeon_developer_panel.Trace.Spm.Header.{ChunkHeader, header_bytes, read_chunk_header}
use radeon_developer_panel.Trace.Spm.Search.{
  found, unfinished, search_loop, get_pointer_to_first_chunk_with_type,
}
use radeon_developer_panel.Trace.Spm.Ends.{
  StartsAt, MeetsNegative, get_pointer_to_first_chunk_with_type-ends, search_loop-unfinished,
}
use radeon_developer_panel.Trace.Spm.Find.{Chunk}
use radeon_developer_panel.Trace.Spm.File.{
  TraceFile, IsFile, file_bytes, get_pointer_to_first_chunk_with_type-first_of,
}
use radeon_developer_panel.Trace.Spm.Database.{Counter, Database, SpmTiming}
use radeon_developer_panel.Trace.Spm.Serialize.{
  chunk_size, write_chunk, component_counters, has_nested, serialize_chunk_derived_spm_db,
  derived_header, index_database,
}
use radeon_developer_panel.Trace.Spm.Known.{IsDatabase}
use radeon_developer_panel.Trace.Spm.Layout.{body}
use radeon_developer_panel.Trace.Spm.Written.{
  write_chunk-fills, serialize_chunk_derived_spm_db-found,
}
use radeon_developer_panel.Trace.Spm.Indices.{rank, find_key-index_database}

-- A counter that is computed of another one.
abbrev whole_counter : Counter
whole_counter = record {
  address = 11;
  display_name = codes "hits";
  description = codes "Cache hits";
  usage_type = 1;
  components = 22 ∷ [];
  samples = 5 ∷ 6 ∷ [];
}

abbrev part_counter : Counter
part_counter = record {
  address = 22;
  display_name = codes "l2";
  description = [];
  usage_type = 1;
  components = [];
  samples = 7 ∷ 8 ∷ [];
}

abbrev some_database : Database
some_database = record {
  counters = part_counter ∷ whole_counter ∷ [];
  groups = record { name = codes "cache"; description = []; members = 11 ∷ [] } ∷ [];
  num_samples = 2;
}

abbrev some_timing : SpmTiming
some_timing = record { sample_interval = 4096; timestamps = 1 ∷ 2 ∷ [] }

is_database : IsDatabase some_database some_timing
is_database = record {
  counters = (
    record {
      name = omega arith;
      description = omega arith;
      few = omega arith;
      known = tt;
      samples = refl;
    },
    (
      record {
        name = omega arith;
        description = omega arith;
        few = omega arith;
        known = (refl, tt);
        samples = refl;
      },
      tt,
    ),
  );
  groups = (
    record { name = omega arith; description = omega arith; few = omega arith; known = (refl, tt) },
    tt,
  );
  timestamps = omega arith;
}

write_chunk-fills_example :
    (b : Buffer) × (write_chunk some_database some_timing
        (new_buffer (chunk_size some_database some_timing))
      ≡ some b)
    × (b.room ≡ 0)
    × (length b.written ≡ chunk_size some_database some_timing)
    × (b.written
        ≡ header_bytes (derived_header (chunk_size some_database some_timing))
          ++ body some_database some_timing)
    × (serialize_chunk_derived_spm_db some_database some_timing ≡ some b.written)
unfolding has_nested component_counters
write_chunk-fills_example = write_chunk-fills some_database some_timing is_database refl

-- A file with one chunk.
abbrev some_chunk : Chunk
some_chunk = record {
  header = record {
    chunk_identifier = 8;
    version_minor = 1;
    version_major = 0;
    size_in_bytes = 19;
    padding = 0;
  };
  payload = 1 ∷ 2 ∷ 3 ∷ [];
}

abbrev some_file : TraceFile
some_file = record { start = codes "0123456789abcdef"; rest = 0 ∷ 0 ∷ []; chunks = some_chunk ∷ [] }

is_file : IsFile some_file
unfolding word_bytes
is_file = record {
  start = refl;
  offset = omega arith;
  whole = (
    record {
      fits = record {
        chunk_identifier = omega arith;
        version_minor = omega arith;
        version_major = omega arith;
        size_in_bytes = omega arith;
        padding = omega arith;
      };
      size = refl;
      small = omega arith;
    },
    tt,
  );
  small = omega arith;
}

get_pointer_to_first_chunk_with_type-first_of_example :
    get_pointer_to_first_chunk_with_type
      (suc (length (file_bytes some_file)))
      (file_bytes some_file)
      8
    ≡ found 22
get_pointer_to_first_chunk_with_type-first_of_example =
    get_pointer_to_first_chunk_with_type-first_of some_file 8 is_file

serialize_chunk_derived_spm_db-found_example :
    (chunk : Bytes) × (serialize_chunk_derived_spm_db some_database some_timing ≡ some chunk)
    × (get_pointer_to_first_chunk_with_type
          (suc (length (file_bytes some_file ++ chunk)))
          (file_bytes some_file ++ chunk)
          128
        ≡ found (length (file_bytes some_file)))
unfolding has_nested component_counters chunk_size index_database word_bytes
serialize_chunk_derived_spm_db-found_example =
    serialize_chunk_derived_spm_db-found some_database some_timing some_file is_database refl
      (omega arith) is_file refl (omega arith)

find_key-index_database_example :
    find_key (index_database some_database some_timing).counter_index_map 11
    ≡ some (
        rank
          (component_counters some_database.counters [])
          (has_id (component_counters some_database.counters []) 11)
          (part_counter ∷ []))
find_key-index_database_example =
    find_key-index_database some_database some_timing (part_counter ∷ []) whole_counter [] refl refl
      (omega arith)

get_pointer_to_first_chunk_with_type-ends_example :
    (get_pointer_to_first_chunk_with_type
        (suc (length (file_bytes some_file)))
        (file_bytes some_file)
        9
      ≢ unfinished)
    ⊎ ((start : ℕ) × StartsAt (file_bytes some_file) start
        × MeetsNegative (file_bytes some_file) 9 start)
unfolding word_bytes
get_pointer_to_first_chunk_with_type-ends_example =
    get_pointer_to_first_chunk_with_type-ends (file_bytes some_file) 9 (omega arith)

abbrev forward : ChunkHeader
forward = record {
  chunk_identifier = 3;
  version_minor = 0;
  version_major = 0;
  size_in_bytes = 16;
  padding = 0;
}

-- Its size is -16.
abbrev backward : ChunkHeader
backward = record forward { size_in_bytes = 2 ^ 32 - 16 }

abbrev endless : Bytes
endless = header_bytes forward ++ header_bytes backward

search_loop-unfinished_example :
    (search_loop 1000 endless 8 0 ≡ unfinished) × (search_loop 1000 endless 8 16 ≡ unfinished)
unfolding word_bytes read_chunk_header read_value word_of
search_loop-unfinished_example =
    search_loop-unfinished 1000 endless 8 0 forward backward (header_bytes backward) []
      (omega arith) (omega arith) refl refl (omega arith) (omega arith) refl refl refl
