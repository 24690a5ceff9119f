-- ===== src/Trace/Spm/Database.antt =====
-- The database of derived counters that is written to a trace file by
-- source/trace/src/counters/rgp_derived_spm_database.cpp: what the accessors of the library's classes return.
-- A pointer to a counter is given by a number, the counter's `address`; a double by its bits.
use radeon_developer_panel.Common.{ℕ, List, Bytes}

-- `spm_db::DerivedSpmCounter`.
pub record Counter : Type 0 where
  pub address : ℕ
  pub display_name : Bytes
  pub description : Bytes
  pub usage_type : ℕ
  pub components : List ℕ
  pub samples : List ℕ

-- `spm_db::DerivedSpmGroup`.
pub record Group : Type 0 where
  pub name : Bytes
  pub description : Bytes
  pub members : List ℕ

-- `spm_db::DerivedSpmDataBase`, with the counters in the order in which their map is iterated.
pub record Database : Type 0 where
  pub counters : List Counter
  pub groups : List Group
  pub num_samples : ℕ

pub record SpmTiming : Type 0 where
  pub sample_interval : ℕ
  pub timestamps : List ℕ
