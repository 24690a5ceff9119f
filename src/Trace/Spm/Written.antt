-- ===== src/Trace/Spm/Written.antt =====
-- The chunk of derived counters that source/trace/src/counters/rgp_derived_spm_database.cpp writes: the buffer
-- is filled exactly, and the chunk is found in the file to which it is appended.
use radeon_developer_panel.Common.{
  suc, ◌-◌, ◌^◌, ◌<◌, ◌≡◌, refl, ap, ◌∙◌, false, List, [], ◌∷◌, ◌++◌, some, Bytes, length,
  length-append, arith, All,
}
use mathlib.Core.List.{append-nil}
use radeon_developer_panel.Trace.Spm.Buffer.{
  Buffer, new_buffer, Writes, Piece, value_piece, write_all-Writes,
}
use radeon_developer_panel.Trace.Spm.Header.{
  header_bytes, write_chunk_header, write_chunk_header-Writes,
}
use radeon_developer_panel.Trace.Spm.Search.{found, get_pointer_to_first_chunk_with_type}
use radeon_developer_panel.Trace.Spm.Find.{Chunk, chunk_bytes, IsWhole, length-header_bytes}
use radeon_developer_panel.Trace.Spm.File.{
  TraceFile, file_bytes, IsFile, has_type, get_pointer_to_first_chunk_with_type-append_chunk,
}
use radeon_developer_panel.Trace.Spm.Database.{Database, SpmTiming}
use radeon_developer_panel.Trace.Spm.Serialize.{
  u32, chunk_struct_size, index_database, component_counters, has_nested, chunk_size, write_each,
  write_derived_spm_group_info, write_derived_spm_counter_info, write_derived_spm_component_info,
  write_samples, non_component, component, derived_header, write_chunk,
  serialize_chunk_derived_spm_db,
}
use radeon_developer_panel.Trace.Spm.Pieces.{u32_small, each_bytes, values_piece, write_each-Writes}
use radeon_developer_panel.Trace.Spm.Layout.{
  group_bytes, counter_bytes, component_bytes, sample_bytes, unless_in, if_in, body,
}
use radeon_developer_panel.Trace.Spm.Sizes.{chunk_size-body}
use radeon_developer_panel.Trace.Spm.Known.{IsDatabase, Known-found}
use radeon_developer_panel.Trace.Spm.Infos.{
  group-Writes, counter-Writes, component-Writes, samples-Writes, non_component-Writes,
  component_loop-Writes,
}

map_All {ℓ} :
    {A : Type ℓ} {P Q : A → Type 0} (f : (x : A) → P x → Q x) (xs : List A) → All P xs → All Q xs
map_All f [] h = tt
map_All f (x ∷ xs) h = (f x h.0, map_All f xs h.1)

abbrev chunk_pieces : (db : Database) (timing : SpmTiming) → IsDatabase db timing → List Piece
chunk_pieces db timing i =
    let set = component_counters db.counters [] in
    let s = index_database db timing in
    let indices = s.counter_index_map in
    record {
      writer = write_chunk_header (derived_header (chunk_size db timing));
      bytes = header_bytes (derived_header (chunk_size db timing));
      writes = write_chunk_header-Writes (derived_header (chunk_size db timing));
    }
    ∷ value_piece 4 chunk_struct_size
    ∷ value_piece 4 0
    ∷ value_piece 4 (u32 (length timing.timestamps))
    ∷ value_piece 4 (u32 (length db.groups))
    ∷ value_piece 4 s.next_non_component_idx
    ∷ value_piece 4 s.next_component_idx
    ∷ value_piece 4 timing.sample_interval
    ∷ values_piece 8 (u32 (length timing.timestamps)) timing.timestamps
        (u32_small (length timing.timestamps) i.timestamps)
    ∷ record {
      writer = write_each (write_derived_spm_group_info indices) db.groups;
      bytes = each_bytes (group_bytes indices) db.groups;
      writes =
          write_each-Writes (write_derived_spm_group_info indices) (group_bytes indices) db.groups (
            map_All (λ g h. group-Writes indices db g h (Known-found db timing g.members h.known))
              db.groups i.groups);
    }
    ∷ record {
      writer = write_each (non_component set (write_derived_spm_counter_info indices)) db.counters;
      bytes = each_bytes (unless_in set (counter_bytes indices)) db.counters;
      writes =
          write_each-Writes (non_component set (write_derived_spm_counter_info indices))
            (unless_in set (counter_bytes indices)) db.counters
            (map_All
              (λ c h.
                non_component-Writes set (write_derived_spm_counter_info indices)
                  (counter_bytes indices) c
                  (counter-Writes indices db c h (Known-found db timing c.components h.known)))
              db.counters i.counters);
    }
    ∷ record {
      writer = write_each (component set write_derived_spm_component_info) db.counters;
      bytes = each_bytes (if_in set component_bytes) db.counters;
      writes =
          write_each-Writes (component set write_derived_spm_component_info)
            (if_in set component_bytes) db.counters
            (map_All
              (λ c h.
                component_loop-Writes set write_derived_spm_component_info component_bytes c
                  (component-Writes db c h))
              db.counters i.counters);
    }
    ∷ record {
      writer = write_each (non_component set (write_samples db.num_samples)) db.counters;
      bytes = each_bytes (unless_in set sample_bytes) db.counters;
      writes =
          write_each-Writes (non_component set (write_samples db.num_samples))
            (unless_in set sample_bytes) db.counters
            (map_All
              (λ c h.
                non_component-Writes set (write_samples db.num_samples) sample_bytes c
                  (samples-Writes db c h))
              db.counters i.counters);
    }
    ∷ record {
      writer = write_each (component set (write_samples db.num_samples)) db.counters;
      bytes = each_bytes (if_in set sample_bytes) db.counters;
      writes =
          write_each-Writes (component set (write_samples db.num_samples)) (if_in set sample_bytes)
            db.counters
            (map_All
              (λ c h.
                component_loop-Writes set (write_samples db.num_samples) sample_bytes c
                  (samples-Writes db c h))
              db.counters i.counters);
    }
    ∷ []

write_chunk-Writes :
    (db : Database) (timing : SpmTiming)
    → IsDatabase db timing
    → Writes
        (write_chunk db timing)
        (header_bytes (derived_header (chunk_size db timing)) ++ body db timing)
unfolding write_chunk
write_chunk-Writes db timing i = write_all-Writes (chunk_pieces db timing i)

-- The chunk of a database with no component of a component: nothing is written past the end of the
-- buffer, whose size is computed before, and nothing of it is left unwritten; what is given is the header
-- and the parts in their places. The pointers of the database point into it, every counter has all its
-- samples, and lengths of names, lists and timestamps fit into 32 bits.
pub write_chunk-fills :
    (db : Database) (timing : SpmTiming)
    → IsDatabase db timing
    → has_nested db.counters (component_counters db.counters []) ≡ false
    → (b : Buffer) × (write_chunk db timing (new_buffer (chunk_size db timing)) ≡ some b)
      × (b.room ≡ 0)
      × (length b.written ≡ chunk_size db timing)
      × (b.written ≡ header_bytes (derived_header (chunk_size db timing)) ++ body db timing)
      × (serialize_chunk_derived_spm_db db timing ≡ some b.written)
unfolding serialize_chunk_derived_spm_db
write_chunk-fills db timing i n =
    let size = chunk_size db timing in
    let header = header_bytes (derived_header size) in
    let bytes = header ++ body db timing in
    let l : length bytes ≡ size = omega (
      arith,
      chunk_size-body db timing (map_All (λ c h. h.samples) db.counters i.counters),
      length-append header (body db timing),
      length-header_bytes (derived_header size),
    ) in
    let e = write_chunk-Writes db timing i (new_buffer size) (omega (arith, l)) in
    let room : size - length bytes ≡ 0 = omega (arith, l) in
    let e' : write_chunk db timing (new_buffer size) ≡ some (record { written = bytes; room = 0 }) =
      e ∙ ap (λ room. some (record { written = bytes; room = room })) room in
    (
      record { written = bytes; room = 0 },
      e',
      refl,
      l,
      refl,
      rw (n, e') (ap some (append-nil bytes)),
    )

-- The chunk as one of a file.
abbrev derived_chunk : Database → SpmTiming → Chunk
derived_chunk db timing = record {
  header = derived_header (chunk_size db timing);
  payload = body db timing;
}

derived_chunk-IsWhole :
    (db : Database) (timing : SpmTiming)
    → IsDatabase db timing
    → chunk_size db timing < 2 ^ 31
    → IsWhole (derived_chunk db timing)
derived_chunk-IsWhole db timing i s =
    let e = u32_small (chunk_size db timing) (omega (arith, s)) in
    record {
      fits = record {
        chunk_identifier = omega arith;
        version_minor = omega arith;
        version_major = omega arith;
        size_in_bytes = omega (arith, e, s);
        padding = omega arith;
      };
      size =
          omega (
            arith,
            e,
            chunk_size-body db timing (map_All (λ c h. h.samples) db.counters i.counters),
          );
      small = omega (arith, e, s);
    }

-- The chunk that is written of such a database, if it is smaller than 2 ^ 31 bytes, and appended to a file
-- of whole chunks without one of its type, is found there: where the file ended.
pub serialize_chunk_derived_spm_db-found :
    (db : Database) (timing : SpmTiming) (f : TraceFile)
    → IsDatabase db timing
    → has_nested db.counters (component_counters db.counters []) ≡ false
    → chunk_size db timing < 2 ^ 31
    → IsFile f
    → has_type 128 f.chunks ≡ false
    → length (file_bytes f) < 2 ^ 62
    → (chunk : Bytes) × (serialize_chunk_derived_spm_db db timing ≡ some chunk)
      × (get_pointer_to_first_chunk_with_type
            (suc (length (file_bytes f ++ chunk)))
            (file_bytes f ++ chunk)
            128
          ≡ found (length (file_bytes f)))
serialize_chunk_derived_spm_db-found db timing f i n s w t l =
    let (b, e, room, len, parts, given) = write_chunk-fills db timing i n in
    let c = derived_chunk db timing in
    let sum : length (file_bytes f ++ chunk_bytes c) < 2 ^ 63 =
      omega (arith, l, s, len, ap length parts, length-append (file_bytes f) (chunk_bytes c)) in
    (
      chunk_bytes c,
      given ∙ ap some parts,
      get_pointer_to_first_chunk_with_type-append_chunk f c w (derived_chunk-IsWhole db timing i s)
          t sum,
    )
