-- ===== src/Trace/Spm/Layout.antt =====
-- The layout of the chunk of derived counters, which the comments at the structs of
-- source/trace/src/counters/rgp_derived_spm_database.cpp describe: every part in its place.
use radeon_developer_panel.Common.{
  ℕ, ◌+◌, ◌*◌, ◌≡◌, refl, not, List, [], ◌∷◌, ◌++◌, Bytes, length, length-append, if◌then◌else◌,
  has_id, arith,
}
use radeon_developer_panel.Trace.Spm.Words.{word_bytes}
use radeon_developer_panel.Trace.Spm.Buffer.{words}
use radeon_developer_panel.Trace.Spm.Database.{Counter, Group, Database, SpmTiming}
use radeon_developer_panel.Trace.Spm.Serialize.{
  u32, IndexMap, group_info_size, counter_info_size, component_info_size, chunk_struct_size,
  component_counters, index_database,
}
use radeon_developer_panel.Trace.Spm.Pieces.{index_list, each_bytes}

abbrev pub concat : List Bytes → Bytes
concat [] = []
concat (bytes ∷ rest) = bytes ++ concat rest

abbrev pub lengths : List Bytes → ℕ
lengths [] = 0
lengths (bytes ∷ rest) = length bytes + lengths rest

pub length-concat : (parts : List Bytes) → length (concat parts) ≡ lengths parts
length-concat [] = refl
length-concat (bytes ∷ rest) = omega (arith, length-append bytes (concat rest), length-concat rest)

abbrev pub group_parts : IndexMap → Group → List Bytes
group_parts indices g =
    word_bytes 4 (
      u32 (
        group_info_size
        + u32 (length g.name)
        + u32 (length g.description)
        + u32 (length g.members) * 4))
    ∷ word_bytes 4 group_info_size
    ∷ word_bytes 4 (u32 (length g.name))
    ∷ word_bytes 4 (u32 (length g.description))
    ∷ word_bytes 4 (u32 (length g.members))
    ∷ g.name
    ∷ g.description
    ∷ words 4 (index_list indices g.members)
    ∷ []

abbrev pub group_bytes : IndexMap → Group → Bytes
group_bytes indices g = concat (group_parts indices g)

abbrev pub counter_parts : IndexMap → Counter → List Bytes
counter_parts indices c =
    word_bytes 4 (
      u32 (
        counter_info_size
        + u32 (length c.display_name)
        + u32 (length c.description)
        + u32 (length c.components) * 4))
    ∷ word_bytes 4 counter_info_size
    ∷ word_bytes 4 (u32 (length c.display_name))
    ∷ word_bytes 4 (u32 (length c.description))
    ∷ word_bytes 4 (u32 (length c.components))
    ∷ word_bytes 4 (u32 c.usage_type)
    ∷ c.display_name
    ∷ c.description
    ∷ words 4 (index_list indices c.components)
    ∷ []

abbrev pub counter_bytes : IndexMap → Counter → Bytes
counter_bytes indices c = concat (counter_parts indices c)

abbrev pub component_parts : Counter → List Bytes
component_parts c =
    word_bytes 4
      (u32 (component_info_size + u32 (length c.display_name) + u32 (length c.description)))
    ∷ word_bytes 4 component_info_size
    ∷ word_bytes 4 (u32 (length c.display_name))
    ∷ word_bytes 4 (u32 (length c.description))
    ∷ word_bytes 4 (u32 c.usage_type)
    ∷ c.display_name
    ∷ c.description
    ∷ []

abbrev pub component_bytes : Counter → Bytes
component_bytes c = concat (component_parts c)

abbrev pub sample_bytes : Counter → Bytes
sample_bytes c = words 8 c.samples

-- The bytes of a counter that is no component, and of one that is.
abbrev pub unless_in : List ℕ → (Counter → Bytes) → Counter → Bytes
unless_in set bytes c = if not (has_id set c.address) then bytes c else []

abbrev pub if_in : List ℕ → (Counter → Bytes) → Counter → Bytes
if_in set bytes c = if has_id set c.address then bytes c else []

-- Everything but the chunk's header.
abbrev pub body_parts : Database → SpmTiming → List Bytes
body_parts db timing =
    let set = component_counters db.counters [] in
    let s = index_database db timing in
    word_bytes 4 chunk_struct_size
    ∷ word_bytes 4 0
    ∷ word_bytes 4 (u32 (length timing.timestamps))
    ∷ word_bytes 4 (u32 (length db.groups))
    ∷ word_bytes 4 s.next_non_component_idx
    ∷ word_bytes 4 s.next_component_idx
    ∷ word_bytes 4 timing.sample_interval
    ∷ words 8 timing.timestamps
    ∷ each_bytes (group_bytes s.counter_index_map) db.groups
    ∷ each_bytes (unless_in set (counter_bytes s.counter_index_map)) db.counters
    ∷ each_bytes (if_in set component_bytes) db.counters
    ∷ each_bytes (unless_in set sample_bytes) db.counters
    ∷ each_bytes (if_in set sample_bytes) db.counters
    ∷ []

abbrev pub body : Database → SpmTiming → Bytes
body db timing = concat (body_parts db timing)
