-- ===== src/Trace/Spm/Sizes.antt =====
-- The sizes of the parts of the chunk of derived counters, against the size that
-- source/trace/src/counters/rgp_derived_spm_database.cpp computes before it writes them.
use radeon_developer_panel.Common.{
  ℕ, ◌+◌, ◌*◌, ◌≡◌, List, [], ◌∷◌, length, length-append, has_id, arith, All, Bool-cases, inl, inr,
}
use Prim.Native.Nat.mul
use radeon_developer_panel.Trace.Spm.Words.{length-word_bytes}
use radeon_developer_panel.Trace.Spm.Database.{Counter, Group, Database, SpmTiming}
use radeon_developer_panel.Trace.Spm.Serialize.{
  u32, IndexMap, group_info_size, counter_info_size, component_info_size, chunk_struct_size,
  Indexing, index_counter, index_counters, add_groups, component_counters, first_indexing,
  index_database, chunk_size,
}
use radeon_developer_panel.Trace.Spm.Pieces.{each_bytes, length-indices, length-words8}
use radeon_developer_panel.Trace.Spm.Layout.{
  length-concat, group_parts, counter_parts, component_parts, body_parts, group_bytes,
  counter_bytes, component_bytes, sample_bytes, unless_in, if_in, body,
}

length-group_bytes :
    (indices : IndexMap) (g : Group)
    → length (group_bytes indices g)
      ≡ group_info_size + length g.name + length g.description + length g.members * 4
length-group_bytes indices g = omega (
  arith,
  length-concat (group_parts indices g),
  length-indices indices g.members,
  length-word_bytes 4 (
      u32 (
        group_info_size
        + u32 (length g.name)
        + u32 (length g.description)
        + u32 (length g.members) * 4)),
  length-word_bytes 4 group_info_size,
  length-word_bytes 4 (u32 (length g.name)),
  length-word_bytes 4 (u32 (length g.description)),
  length-word_bytes 4 (u32 (length g.members)),
)

length-counter_bytes :
    (indices : IndexMap) (c : Counter)
    → length (counter_bytes indices c)
      ≡ counter_info_size + length c.display_name + length c.description + length c.components * 4
length-counter_bytes indices c = omega (
  arith,
  length-concat (counter_parts indices c),
  length-indices indices c.components,
  length-word_bytes 4 (
      u32 (
        counter_info_size
        + u32 (length c.display_name)
        + u32 (length c.description)
        + u32 (length c.components) * 4)),
  length-word_bytes 4 counter_info_size,
  length-word_bytes 4 (u32 (length c.display_name)),
  length-word_bytes 4 (u32 (length c.description)),
  length-word_bytes 4 (u32 (length c.components)),
  length-word_bytes 4 (u32 c.usage_type),
)

length-component_bytes :
    (c : Counter)
    → length (component_bytes c)
      ≡ component_info_size + length c.display_name + length c.description
length-component_bytes c = omega (
  arith,
  length-concat (component_parts c),
  length-word_bytes 4
      (u32 (component_info_size + u32 (length c.display_name) + u32 (length c.description))),
  length-word_bytes 4 component_info_size,
  length-word_bytes 4 (u32 (length c.display_name)),
  length-word_bytes 4 (u32 (length c.description)),
  length-word_bytes 4 (u32 c.usage_type),
)

add_groups-length :
    (indices : IndexMap) (gs : List Group) (size : ℕ)
    → add_groups gs size ≡ size + length (each_bytes (group_bytes indices) gs)
unfolding add_groups
add_groups-length indices [] size = omega arith
add_groups-length indices (g ∷ gs) size = omega (
  arith,
  add_groups-length indices gs
      (size + (group_info_size + length g.name + length g.description + length g.members * 4)),
  length-append (group_bytes indices g) (each_bytes (group_bytes indices) gs),
  length-group_bytes indices g,
)

index_counter-length :
    (set : List ℕ) (indices : IndexMap) (c : Counter) (s : Indexing)
    → (index_counter set c s).chunk_size_bytes
      ≡ s.chunk_size_bytes
        + length (unless_in set (counter_bytes indices) c)
        + length (if_in set component_bytes c)
unfolding index_counter
index_counter-length set indices c s = elim (Bool-cases (has_id set c.address)) [
  | inl e ↦ rw e (omega (arith, length-component_bytes c))
  | inr e ↦ rw e (omega (arith, length-counter_bytes indices c))
]

index_counters-length :
    (set : List ℕ) (indices : IndexMap) (cs : List Counter) (s : Indexing)
    → (index_counters set cs s).chunk_size_bytes
      ≡ s.chunk_size_bytes
        + length (each_bytes (unless_in set (counter_bytes indices)) cs)
        + length (each_bytes (if_in set component_bytes) cs)
unfolding index_counters
index_counters-length set indices [] s = omega arith
index_counters-length set indices (c ∷ cs) s = omega (
  arith,
  index_counters-length set indices cs (index_counter set c s),
  index_counter-length set indices c s,
  length-append (unless_in set (counter_bytes indices) c)
      (each_bytes (unless_in set (counter_bytes indices)) cs),
  length-append (if_in set component_bytes c) (each_bytes (if_in set component_bytes) cs),
)

sample-length :
    (set : List ℕ) (c : Counter)
    → length (unless_in set sample_bytes c) + length (if_in set sample_bytes c)
      ≡ length c.samples * 8
sample-length set c = elim (Bool-cases (has_id set c.address)) [
  | inl e ↦ rw e (omega (arith, length-words8 c.samples))
  | inr e ↦ rw e (omega (arith, length-words8 c.samples))
]

samples-length :
    (set : List ℕ) (n : ℕ) (cs : List Counter)
    → All (λ c. length c.samples ≡ n) cs
    → length (each_bytes (unless_in set sample_bytes) cs)
        + length (each_bytes (if_in set sample_bytes) cs)
      ≡ length cs * n * 8
samples-length set n [] h = omega (arith, mul.zero n)
samples-length set n (c ∷ cs) h = omega (
  arith,
  samples-length set n cs h.1,
  sample-length set c,
  h.0,
  mul.suc (length cs) n,
  length-append (unless_in set sample_bytes c) (each_bytes (unless_in set sample_bytes) cs),
  length-append (if_in set sample_bytes c) (each_bytes (if_in set sample_bytes) cs),
)

-- The size that is computed before is that of the header and all the parts.
pub chunk_size-body :
    (db : Database) (timing : SpmTiming)
    → All (λ c. length c.samples ≡ db.num_samples) db.counters
    → chunk_size db timing ≡ 16 + length (body db timing)
unfolding chunk_size index_database
chunk_size-body db timing h =
    let set = component_counters db.counters [] in
    let s = index_database db timing in
    let indices = s.counter_index_map in
    omega (
      arith,
      add_groups-length indices db.groups s.chunk_size_bytes,
      index_counters-length set indices db.counters (first_indexing db timing),
      samples-length set db.num_samples db.counters h,
      length-words8 timing.timestamps,
      length-concat (body_parts db timing),
      length-word_bytes 4 chunk_struct_size,
      length-word_bytes 4 0,
      length-word_bytes 4 (u32 (length timing.timestamps)),
      length-word_bytes 4 (u32 (length db.groups)),
      length-word_bytes 4 s.next_non_component_idx,
      length-word_bytes 4 s.next_component_idx,
      length-word_bytes 4 timing.sample_interval,
    )
