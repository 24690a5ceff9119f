-- ===== src/Trace/Spm/Serialize.antt =====
-- `SerializeChunkDerivedSpmDb` of source/trace/src/counters/rgp_derived_spm_database.cpp. Numbers of the type
-- `size_t` count bytes in memory, so they do not wrap. Nothing is given where the source throws since a counter
-- is not in the map, or reads or writes past the end of an array.
use radeon_developer_panel.Common.{
  ℕ, ◌+◌, ◌*◌, ◌%◌, ◌^◌, Bool, true, false, not, List, [], ◌∷◌, Option, some, ◌>>=◌, Bytes, length,
  ◌==◌, if◌then◌else◌, has_id, insert_id, find_key, insert_key,
}
use radeon_developer_panel.Trace.Spm.Buffer.{
  new_buffer, contents, Writer, write_value, write_values, write_chars, write_all,
}
use radeon_developer_panel.Trace.Spm.Header.{ChunkHeader, write_chunk_header}
use radeon_developer_panel.Trace.Spm.Database.{Counter, Group, Database, SpmTiming}

-- `static_cast<uint32_t>`.
abbrev pub u32 : ℕ → ℕ
u32 n = n % 2 ^ 32

-- The sizes of the structs.
abbrev pub group_info_size : ℕ
group_info_size = 20

abbrev pub counter_info_size : ℕ
counter_info_size = 24

abbrev pub component_info_size : ℕ
component_info_size = 20

abbrev pub chunk_struct_size : ℕ
chunk_struct_size = 44

abbrev pub IndexMap : Type 0
IndexMap = List (ℕ × ℕ)

-- `counter_index_map.at` of each.
unfoldable pub find_each : IndexMap → List ℕ → Option (List ℕ)
find_each indices [] = some []
find_each indices (id ∷ ids) = do i ← find_key indices id; is ← find_each indices ids; some (i ∷ is)

unfoldable pub write_indices : IndexMap → ℕ → List ℕ → Writer
unfolding find_each write_values
write_indices indices count ids b = find_each indices ids >>= λ is. write_values 4 count is b

unfoldable pub write_derived_spm_group_info : IndexMap → Group → Writer
unfolding write_all write_value write_chars write_indices
write_derived_spm_group_info indices group =
    let name_length = u32 (length group.name) in
    let desc_length = u32 (length group.description) in
    let num_members = u32 (length group.members) in
    write_all (
      write_value 4 (u32 (group_info_size + name_length + desc_length + num_members * 4))
      ∷ write_value 4 group_info_size
      ∷ write_value 4 name_length
      ∷ write_value 4 desc_length
      ∷ write_value 4 num_members
      ∷ write_chars name_length group.name
      ∷ write_chars desc_length group.description
      ∷ write_indices indices num_members group.members
      ∷ [])

unfoldable pub write_derived_spm_counter_info : IndexMap → Counter → Writer
unfolding write_all write_value write_chars write_indices
write_derived_spm_counter_info indices counter =
    let name_length = u32 (length counter.display_name) in
    let desc_length = u32 (length counter.description) in
    let num_components = u32 (length counter.components) in
    write_all (
      write_value 4 (u32 (counter_info_size + name_length + desc_length + num_components * 4))
      ∷ write_value 4 counter_info_size
      ∷ write_value 4 name_length
      ∷ write_value 4 desc_length
      ∷ write_value 4 num_components
      ∷ write_value 4 (u32 counter.usage_type)
      ∷ write_chars name_length counter.display_name
      ∷ write_chars desc_length counter.description
      ∷ write_indices indices num_components counter.components
      ∷ [])

unfoldable pub write_derived_spm_component_info : Counter → Writer
unfolding write_all write_value write_chars
write_derived_spm_component_info counter =
    let name_length = u32 (length counter.display_name) in
    let desc_length = u32 (length counter.description) in
    write_all (
      write_value 4 (u32 (component_info_size + name_length + desc_length))
      ∷ write_value 4 component_info_size
      ∷ write_value 4 name_length
      ∷ write_value 4 desc_length
      ∷ write_value 4 (u32 counter.usage_type)
      ∷ write_chars name_length counter.display_name
      ∷ write_chars desc_length counter.description
      ∷ [])

unfoldable pub insert_all : List ℕ → List ℕ → List ℕ
unfolding insert_id
insert_all [] set = set
insert_all (id ∷ ids) set = insert_all ids (insert_id id set)

-- The set of the counters that are components of others.
unfoldable pub component_counters : List Counter → List ℕ → List ℕ
unfolding insert_all
component_counters [] set = set
component_counters (c ∷ cs) set = component_counters cs (insert_all c.components set)

abbrev is_empty : List ℕ → Bool
is_empty [] = true
is_empty (id ∷ ids) = false

-- `component_counter->Components().empty()`; the library's pointers point to its counters.
unfoldable pub has_no_components : List Counter → ℕ → Bool
has_no_components [] id = true
has_no_components (c ∷ cs) id =
    if c.address == id then is_empty c.components else has_no_components cs id

unfoldable pub has_nested : List Counter → List ℕ → Bool
unfolding has_no_components
has_nested counters [] = false
has_nested counters (id ∷ ids) =
    if not (has_no_components counters id) then true else has_nested counters ids

-- What the loop over the counters computes.
pub record Indexing : Type 0 where
  pub counter_index_map : IndexMap
  pub next_non_component_idx : ℕ
  pub next_component_idx : ℕ
  pub chunk_size_bytes : ℕ

unfoldable pub index_counter : List ℕ → Counter → Indexing → Indexing
unfolding insert_key
index_counter set c s =
    if not (has_id set c.address)
    then record s {
      counter_index_map = insert_key c.address s.next_non_component_idx s.counter_index_map;
      next_non_component_idx = u32 (s.next_non_component_idx + 1);
      chunk_size_bytes =
          s.chunk_size_bytes
          + (counter_info_size
              + length c.display_name
              + length c.description
              + length c.components * 4);
    }
    else record s {
      counter_index_map = insert_key c.address s.next_component_idx s.counter_index_map;
      next_component_idx = u32 (s.next_component_idx + 1);
      chunk_size_bytes =
          s.chunk_size_bytes + (component_info_size + length c.display_name + length c.description);
    }

unfoldable pub index_counters : List ℕ → List Counter → Indexing → Indexing
unfolding index_counter
index_counters set [] s = s
index_counters set (c ∷ cs) s = index_counters set cs (index_counter set c s)

unfoldable pub add_groups : List Group → ℕ → ℕ
add_groups [] size = size
add_groups (g ∷ gs) size =
    add_groups gs
      (size + (group_info_size + length g.name + length g.description + length g.members * 4))

-- Before the loop: the size is that of the struct, the timestamps and the samples.
abbrev pub first_indexing : Database → SpmTiming → Indexing
first_indexing db timing = record {
  counter_index_map = [];
  next_non_component_idx = 0;
  next_component_idx = 0;
  chunk_size_bytes =
      chunk_struct_size + length timing.timestamps * 8 + length db.counters * db.num_samples * 8;
}

-- The set, the indices and the size of the chunk without its groups.
unfoldable pub index_database : Database → SpmTiming → Indexing
unfolding component_counters index_counters
index_database db timing =
    index_counters (component_counters db.counters []) db.counters (first_indexing db timing)

-- The size of the buffer.
unfoldable pub chunk_size : Database → SpmTiming → ℕ
unfolding add_groups index_database
chunk_size db timing = add_groups db.groups (index_database db timing).chunk_size_bytes

-- The loops that write.
unfoldable pub write_each {ℓ} : {A : Type ℓ} → (A → Writer) → List A → Writer
write_each write [] b = some b
write_each write (x ∷ xs) b = write x b >>= write_each write xs

abbrev pub skip : Writer
skip b = some b

abbrev pub non_component : List ℕ → (Counter → Writer) → Counter → Writer
non_component set write c = if not (has_id set c.address) then write c else skip

abbrev pub component : List ℕ → (Counter → Writer) → Counter → Writer
component set write c = if has_id set c.address then write c else skip

unfoldable pub write_samples : ℕ → Counter → Writer
unfolding write_values
write_samples num_samples c = write_values 8 num_samples c.samples

abbrev pub derived_header : ℕ → ChunkHeader
derived_header size = record {
  chunk_identifier = 128;
  version_minor = 0;
  version_major = 0;
  size_in_bytes = u32 size;
  padding = 0;
}

unfoldable pub write_chunk : Database → SpmTiming → Writer
unfolding chunk_size index_database component_counters write_chunk_header write_value write_values
    write_each write_derived_spm_group_info write_derived_spm_counter_info
    write_derived_spm_component_info write_samples
write_chunk db timing =
    let set = component_counters db.counters [] in
    let s = index_database db timing in
    write_all (
      write_chunk_header (derived_header (chunk_size db timing))
      ∷ write_value 4 chunk_struct_size
      ∷ write_value 4 0
      ∷ write_value 4 (u32 (length timing.timestamps))
      ∷ write_value 4 (u32 (length db.groups))
      ∷ write_value 4 s.next_non_component_idx
      ∷ write_value 4 s.next_component_idx
      ∷ write_value 4 timing.sample_interval
      ∷ write_values 8 (u32 (length timing.timestamps)) timing.timestamps
      ∷ write_each (write_derived_spm_group_info s.counter_index_map) db.groups
      ∷ write_each (non_component set (write_derived_spm_counter_info s.counter_index_map))
          db.counters
      ∷ write_each (component set write_derived_spm_component_info) db.counters
      ∷ write_each (non_component set (write_samples db.num_samples)) db.counters
      ∷ write_each (component set (write_samples db.num_samples)) db.counters
      ∷ [])

-- The chunk is empty where a component has components itself.
unfoldable pub serialize_chunk_derived_spm_db : Database → SpmTiming → Option Bytes
unfolding component_counters has_nested chunk_size write_chunk
serialize_chunk_derived_spm_db db timing =
    if has_nested db.counters (component_counters db.counters [])
    then some []
    else write_chunk db timing (new_buffer (chunk_size db timing)) >>= λ b. some (contents b)
