-- ===== src/Trace/Spm/Infos.antt =====
-- What is written for a group, a counter and a component by
-- source/trace/src/counters/rgp_derived_spm_database.cpp.
use radeon_developer_panel.Common.{
  ℕ, ◌+◌, ◌-◌, ◌*◌, ◌≡◌, ap₂, sym, List, [], ◌∷◌, some, Bytes, length, has_id, arith, Bool-cases,
  inl, inr,
}
use mathlib.Core.List.{append-nil}
use radeon_developer_panel.Trace.Spm.Buffer.{Writer, Writes, Piece, value_piece, write_all-Writes}
use radeon_developer_panel.Trace.Spm.Database.{Counter, Group, Database}
use radeon_developer_panel.Trace.Spm.Serialize.{
  u32, IndexMap, group_info_size, counter_info_size, component_info_size,
  write_derived_spm_group_info, write_derived_spm_counter_info, write_derived_spm_component_info,
  write_samples, skip, non_component, component,
}
use radeon_developer_panel.Trace.Spm.Pieces.{
  AllFound, chars_piece, indices_piece, write_values-Writes,
}
use radeon_developer_panel.Trace.Spm.Layout.{
  group_bytes, counter_bytes, component_bytes, sample_bytes, unless_in, if_in,
}
use radeon_developer_panel.Trace.Spm.Known.{IsCounter, IsGroup}

abbrev group_pieces :
    (indices : IndexMap) (db : Database) (g : Group)
    → IsGroup db g
    → AllFound indices g.members
    → List Piece
group_pieces indices db g i f =
    value_piece 4 (
      u32 (
        group_info_size
        + u32 (length g.name)
        + u32 (length g.description)
        + u32 (length g.members) * 4))
    ∷ value_piece 4 group_info_size
    ∷ value_piece 4 (u32 (length g.name))
    ∷ value_piece 4 (u32 (length g.description))
    ∷ value_piece 4 (u32 (length g.members))
    ∷ chars_piece g.name i.name
    ∷ chars_piece g.description i.description
    ∷ indices_piece indices g.members f i.few
    ∷ []

pub group-Writes :
    (indices : IndexMap) (db : Database) (g : Group)
    → IsGroup db g
    → AllFound indices g.members
    → Writes (write_derived_spm_group_info indices g) (group_bytes indices g)
unfolding write_derived_spm_group_info
group-Writes indices db g i f = write_all-Writes (group_pieces indices db g i f)

abbrev counter_pieces :
    (indices : IndexMap) (db : Database) (c : Counter)
    → IsCounter db c
    → AllFound indices c.components
    → List Piece
counter_pieces indices db c i f =
    value_piece 4 (
      u32 (
        counter_info_size
        + u32 (length c.display_name)
        + u32 (length c.description)
        + u32 (length c.components) * 4))
    ∷ value_piece 4 counter_info_size
    ∷ value_piece 4 (u32 (length c.display_name))
    ∷ value_piece 4 (u32 (length c.description))
    ∷ value_piece 4 (u32 (length c.components))
    ∷ value_piece 4 (u32 c.usage_type)
    ∷ chars_piece c.display_name i.name
    ∷ chars_piece c.description i.description
    ∷ indices_piece indices c.components f i.few
    ∷ []

pub counter-Writes :
    (indices : IndexMap) (db : Database) (c : Counter)
    → IsCounter db c
    → AllFound indices c.components
    → Writes (write_derived_spm_counter_info indices c) (counter_bytes indices c)
unfolding write_derived_spm_counter_info
counter-Writes indices db c i f = write_all-Writes (counter_pieces indices db c i f)

abbrev component_pieces : (db : Database) (c : Counter) → IsCounter db c → List Piece
component_pieces db c i =
    value_piece 4
      (u32 (component_info_size + u32 (length c.display_name) + u32 (length c.description)))
    ∷ value_piece 4 component_info_size
    ∷ value_piece 4 (u32 (length c.display_name))
    ∷ value_piece 4 (u32 (length c.description))
    ∷ value_piece 4 (u32 c.usage_type)
    ∷ chars_piece c.display_name i.name
    ∷ chars_piece c.description i.description
    ∷ []

pub component-Writes :
    (db : Database) (c : Counter)
    → IsCounter db c
    → Writes (write_derived_spm_component_info c) (component_bytes c)
unfolding write_derived_spm_component_info
component-Writes db c i = write_all-Writes (component_pieces db c i)

pub samples-Writes :
    (db : Database) (c : Counter)
    → IsCounter db c
    → Writes (write_samples db.num_samples c) (sample_bytes c)
unfolding write_samples
samples-Writes db c i = write_values-Writes 8 db.num_samples c.samples (sym i.samples)

skip-Writes : Writes skip []
skip-Writes b l =
    let room : b.room ≡ b.room - 0 = omega arith in
    ap₂ (λ written room. some (record { written = written; room = room }))
      (sym (append-nil b.written)) room

-- The loops over the counters write for those that are components, or for the others.
pub non_component-Writes :
    (set : List ℕ) (write : Counter → Writer) (bytes : Counter → Bytes) (c : Counter)
    → Writes (write c) (bytes c)
    → Writes (non_component set write c) (unless_in set bytes c)
non_component-Writes set write bytes c w = elim (Bool-cases (has_id set c.address)) [
  | inl e ↦ rw e skip-Writes
  | inr e ↦ rw e w
]

pub component_loop-Writes :
    (set : List ℕ) (write : Counter → Writer) (bytes : Counter → Bytes) (c : Counter)
    → Writes (write c) (bytes c)
    → Writes (component set write c) (if_in set bytes c)
component_loop-Writes set write bytes c w = elim (Bool-cases (has_id set c.address)) [
  | inl e ↦ rw e w
  | inr e ↦ rw e skip-Writes
]
