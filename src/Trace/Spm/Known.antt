-- ===== src/Trace/Spm/Known.antt =====
-- Which databases are written by source/trace/src/counters/rgp_derived_spm_database.cpp, and that every counter
-- of one gets an index.
use radeon_developer_panel.Common.{
  ℕ, ◌^◌, ◌<◌, ◌≡◌, refl, ap, ◌∙◌, Bool, true, false, ◌||◌, List, [], ◌∷◌, length, ◌==◌,
  if◌then◌else◌, has_id, has_key, insert_key, find_key-insert_key, is_some, arith, All, Bool-cases,
  inl, inr,
}
use radeon_developer_panel.Trace.Spm.Database.{Counter, Group, Database, SpmTiming}
use radeon_developer_panel.Trace.Spm.Serialize.{
  IndexMap, Indexing, index_counter, index_counters, index_database, component_counters,
}
use radeon_developer_panel.Trace.Spm.Pieces.{AllFound}

abbrev pub has_counter : List Counter → ℕ → Bool
has_counter [] id = false
has_counter (c ∷ cs) id = if c.address == id then true else has_counter cs id

-- Every pointer points to a counter of the database.
abbrev pub Known : List Counter → List ℕ → Type 0
Known counters ids = All (λ id. has_counter counters id ≡ true) ids

pub record IsCounter (db : Database) (c : Counter) : Type 0 where
  pub name : length c.display_name < 2 ^ 32
  pub description : length c.description < 2 ^ 32
  pub few : length c.components < 2 ^ 32
  pub known : Known db.counters c.components
  pub samples : length c.samples ≡ db.num_samples

pub record IsGroup (db : Database) (g : Group) : Type 0 where
  pub name : length g.name < 2 ^ 32
  pub description : length g.description < 2 ^ 32
  pub few : length g.members < 2 ^ 32
  pub known : Known db.counters g.members

-- Pointers point into the database, every counter has all samples, and lengths fit into 32 bits.
pub record IsDatabase (db : Database) (timing : SpmTiming) : Type 0 where
  pub counters : All (IsCounter db) db.counters
  pub groups : All (IsGroup db) db.groups
  pub timestamps : length timing.timestamps < 2 ^ 32

has_key-insert_key :
    (k j v : ℕ) (m : IndexMap)
    → has_key (insert_key k v m) j ≡ (if k == j then true else has_key m j)
has_key-insert_key k j v m = elim (Bool-cases (k == j)) [
  | inl e ↦ ap is_some (find_key-insert_key k j v m) ∙ rw e refl
  | inr e ↦ ap is_some (find_key-insert_key k j v m) ∙ rw e refl
]

pub has_key-index_counter :
    (set : List ℕ) (c : Counter) (s : Indexing) (id : ℕ)
    → has_key (index_counter set c s).counter_index_map id
      ≡ (if c.address == id then true else has_key s.counter_index_map id)
unfolding index_counter
has_key-index_counter set c s id = elim (Bool-cases (has_id set c.address)) [
  | inl e ↦ rw e (has_key-insert_key c.address id s.next_component_idx s.counter_index_map)
  | inr e ↦ rw e (has_key-insert_key c.address id s.next_non_component_idx s.counter_index_map)
]

-- What has an index keeps it, and every counter gets one.
has_key-index_counters :
    (set : List ℕ) (cs : List Counter) (s : Indexing) (id : ℕ)
    → (has_key s.counter_index_map id || has_counter cs id) ≡ true
    → has_key (index_counters set cs s).counter_index_map id ≡ true
unfolding index_counters
has_key-index_counters set [] s id h = ground (arith, h)
has_key-index_counters set (c ∷ cs) s id h =
    has_key-index_counters set cs (index_counter set c s) id
      (ground (arith, h, has_key-index_counter set c s id))

index_found :
    (db : Database) (timing : SpmTiming) (id : ℕ)
    → has_counter db.counters id ≡ true
    → has_key (index_database db timing).counter_index_map id ≡ true
unfolding index_database
index_found db timing id k =
    has_key-index_counters (component_counters db.counters []) db.counters _ id k

pub Known-found :
    (db : Database) (timing : SpmTiming) (ids : List ℕ)
    → Known db.counters ids
    → AllFound (index_database db timing).counter_index_map ids
Known-found db timing [] k = tt
Known-found db timing (id ∷ ids) k = (index_found db timing id k.0, Known-found db timing ids k.1)
