-- ===== src/Trace/Spm/Indices.antt =====
-- The indices by which groups and counters are written to refer to counters, in
-- source/trace/src/counters/rgp_derived_spm_database.cpp.
use radeon_developer_panel.Common.{
  ℕ, ◌+◌, ◌^◌, ◌≤◌, ◌<◌, ◌≡◌, refl, ap, ◌∙◌, Bool, true, false, List, [], ◌∷◌, ◌++◌, none, some,
  length, ◌==◌, ==_iff, if◌then◌else◌, has_id, insert_key, find_key, find_key-insert_key, arith,
  Bool-cases, inl, inr,
}
use radeon_developer_panel.Trace.Spm.Database.{Counter, Database, SpmTiming}
use radeon_developer_panel.Trace.Spm.Serialize.{
  IndexMap, Indexing, index_counter, index_counters, first_indexing, index_database,
  component_counters,
}
use radeon_developer_panel.Trace.Spm.Known.{has_counter}

-- How many counters are components, or are not.
abbrev pub rank : List ℕ → Bool → List Counter → ℕ
rank set b [] = 0
rank set true (c ∷ cs) = (if has_id set c.address then 1 else 0) + rank set true cs
rank set false (c ∷ cs) = (if has_id set c.address then 0 else 1) + rank set false cs

abbrev next_of : Bool → Indexing → ℕ
next_of true s = s.next_component_idx
next_of false s = s.next_non_component_idx

index_counters-append :
    (set : List ℕ) (xs ys : List Counter) (s : Indexing)
    → index_counters set (xs ++ ys) s ≡ index_counters set ys (index_counters set xs s)
unfolding index_counters
index_counters-append set [] ys s = refl
index_counters-append set (x ∷ xs) ys s = index_counters-append set xs ys (index_counter set x s)

next_of-index_counter :
    (set : List ℕ) (b : Bool) (c : Counter) (s : Indexing)
    → next_of b s + 1 < 2 ^ 32
    → next_of b (index_counter set c s) ≡ next_of b s + rank set b (c ∷ [])
unfolding index_counter
next_of-index_counter set true c s h = elim (Bool-cases (has_id set c.address)) [
  | inl e ↦ rw e (omega (arith, h))
  | inr e ↦ rw e (omega (arith, h))
]
next_of-index_counter set false c s h = elim (Bool-cases (has_id set c.address)) [
  | inl e ↦ rw e (omega (arith, h))
  | inr e ↦ rw e (omega (arith, h))
]

rank-cons :
    (set : List ℕ) (b : Bool) (c : Counter) (cs : List Counter)
    → rank set b (c ∷ cs) ≡ rank set b (c ∷ []) + rank set b cs
rank-cons set true c cs = omega arith
rank-cons set false c cs = omega arith

rank-one : (set : List ℕ) (b : Bool) (c : Counter) → rank set b (c ∷ []) ≤ 1
rank-one set true c = ground arith
rank-one set false c = ground arith

next_of-index_counters :
    (set : List ℕ) (b : Bool) (cs : List Counter) (s : Indexing)
    → next_of b s + length cs < 2 ^ 32
    → next_of b (index_counters set cs s) ≡ next_of b s + rank set b cs
unfolding index_counters
next_of-index_counters set b [] s h = omega arith
next_of-index_counters set b (c ∷ cs) s h =
    let e = next_of-index_counter set b c s (omega (arith, h)) in
    omega (
      arith,
      e,
      rank-cons set b c cs,
      next_of-index_counters set b cs (index_counter set c s)
          (omega (arith, h, e, rank-one set b c)),
    )

insert_key-keeps :
    (k j v i : ℕ) (m : IndexMap) → find_key m j ≡ some i → find_key (insert_key k v m) j ≡ some i
insert_key-keeps k j v i m h = elim (Bool-cases (k == j)) [
  | inl e ↦ find_key-insert_key k j v m ∙ rw (e, h) refl
  | inr e ↦ find_key-insert_key k j v m ∙ rw (e, h) refl
]

insert_key-new :
    (k v : ℕ) (m : IndexMap) → find_key m k ≡ none → find_key (insert_key k v m) k ≡ some v
insert_key-new k v m h = find_key-insert_key k k v m ∙ rw ((==_iff k k).1 refl, h) refl

insert_key-other :
    (k j v : ℕ) (m : IndexMap)
    → (k == j) ≡ false
    → find_key m j ≡ none
    → find_key (insert_key k v m) j ≡ none
insert_key-other k j v m e h = find_key-insert_key k j v m ∙ rw (e, h) refl

-- A counter that has an index keeps it.
find_key-index_counter :
    (set : List ℕ) (c : Counter) (s : Indexing) (id i : ℕ)
    → find_key s.counter_index_map id ≡ some i
    → find_key (index_counter set c s).counter_index_map id ≡ some i
unfolding index_counter
find_key-index_counter set c s id i h = elim (Bool-cases (has_id set c.address)) [
  | inl e ↦ rw e (insert_key-keeps c.address id s.next_component_idx i s.counter_index_map h)
  | inr e ↦ rw e (insert_key-keeps c.address id s.next_non_component_idx i s.counter_index_map h)
]

find_key-index_counters :
    (set : List ℕ) (cs : List Counter) (s : Indexing) (id i : ℕ)
    → find_key s.counter_index_map id ≡ some i
    → find_key (index_counters set cs s).counter_index_map id ≡ some i
unfolding index_counters
find_key-index_counters set [] s id i h = h
find_key-index_counters set (c ∷ cs) s id i h =
    find_key-index_counters set cs (index_counter set c s) id i
      (find_key-index_counter set c s id i h)

-- A counter without an index gets the next one of its kind.
find_key-new :
    (set : List ℕ) (b : Bool) (c : Counter) (s : Indexing)
    → has_id set c.address ≡ b
    → find_key s.counter_index_map c.address ≡ none
    → find_key (index_counter set c s).counter_index_map c.address ≡ some (next_of b s)
unfolding index_counter
find_key-new set true c s k h =
    rw k (insert_key-new c.address s.next_component_idx s.counter_index_map h)
find_key-new set false c s k h =
    rw k (insert_key-new c.address s.next_non_component_idx s.counter_index_map h)

find_key-other :
    (set : List ℕ) (c : Counter) (s : Indexing) (id : ℕ)
    → (c.address == id) ≡ false
    → find_key s.counter_index_map id ≡ none
    → find_key (index_counter set c s).counter_index_map id ≡ none
unfolding index_counter
find_key-other set c s id n h = elim (Bool-cases (has_id set c.address)) [
  | inl e ↦ rw e (insert_key-other c.address id s.next_component_idx s.counter_index_map n h)
  | inr e ↦ rw e (insert_key-other c.address id s.next_non_component_idx s.counter_index_map n h)
]

find_key-none :
    (set : List ℕ) (cs : List Counter) (s : Indexing) (id : ℕ)
    → find_key s.counter_index_map id ≡ none
    → has_counter cs id ≡ false
    → find_key (index_counters set cs s).counter_index_map id ≡ none
unfolding index_counters
find_key-none set [] s id h n = h
find_key-none set (c ∷ cs) s id h n = elim (Bool-cases (c.address == id)) [
  | inl e ↦ cc (rw e at n)
  | inr e ↦
      find_key-none set cs (index_counter set c s) id (find_key-other set c s id e h) (rw e at n)
]

next_of-zero :
    (b : Bool) (s : Indexing)
    → s.next_component_idx ≡ 0
    → s.next_non_component_idx ≡ 0
    → next_of b s ≡ 0
next_of-zero true s h k = h
next_of-zero false s h k = k

find_key-index_counters_split :
    (set : List ℕ) (before : List Counter) (c : Counter) (behind : List Counter) (s : Indexing)
    → s.next_component_idx ≡ 0
    → s.next_non_component_idx ≡ 0
    → s.counter_index_map ≡ []
    → has_counter before c.address ≡ false
    → length before < 2 ^ 32
    → find_key (index_counters set (before ++ c ∷ behind) s).counter_index_map c.address
      ≡ some (rank set (has_id set c.address) before)
unfolding index_counters
find_key-index_counters_split set before c behind s h k m n l =
    let b = has_id set c.address in
    let s1 = index_counters set before s in
    let zero = next_of-zero b s h k in
    let next = next_of-index_counters set b before s (omega (arith, zero, l)) in
    let new = find_key-none set before s c.address (ap (λ m. find_key m c.address) m) n in
    let index : next_of b s1 ≡ rank set b before = omega (arith, next, zero) in
    ap (λ t. find_key t.counter_index_map c.address)
      (index_counters-append set before (c ∷ behind) s)
    ∙ find_key-index_counters set behind (index_counter set c s1) c.address (next_of b s1)
        (find_key-new set b c s1 refl new)
    ∙ ap some index

-- A counter is referred to by its place among the counters that are written before it in the same array: of
-- the components if it is a component of another, and else of the others. The counters before it have
-- other addresses, and there are less than 2 ^ 32.
pub find_key-index_database :
    (db : Database) (timing : SpmTiming) (before : List Counter) (c : Counter)
    (behind : List Counter)
    → db.counters ≡ before ++ c ∷ behind
    → has_counter before c.address ≡ false
    → length before < 2 ^ 32
    → let set = component_counters db.counters [] in
      find_key (index_database db timing).counter_index_map c.address
      ≡ some (rank set (has_id set c.address) before)
unfolding index_database
find_key-index_database db timing before c behind e n l =
    let set = component_counters db.counters [] in
    let s = first_indexing db timing in
    ap (λ cs. find_key (index_counters set cs s).counter_index_map c.address) e
    ∙ find_key-index_counters_split set before c behind s refl refl refl n l
