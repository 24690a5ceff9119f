-- ===== src/Trace/Clocks/Names.antt =====
-- The names that `OnRouterConnected` of `DeviceClocksManager` (source/trace/src/device_clocks.cpp)
-- gives to the GPUs.
use radeon_developer_panel.Common.{
  ℕ, ◌+◌, ◌<◌, ◌≡◌, ◌≢◌, refl, ap, ◌∙◌, true, List, [], ◌∷◌, map, Option, none, some, ltb,
  if◌then◌else◌, Bytes, same_bytes, same_bytes→eq, same_bytes_refl, length, get_elem?, zero, suc,
  arith, lt→ltb, Bool-cases, inl, inr,
}
use radeon_developer_panel.Trace.Clocks.Gpu.{Gpu}
use radeon_developer_panel.Trace.Clocks.Manager.{ClocksManager}
use radeon_developer_panel.Trace.Clocks.Router.{
  GpuEntry, new_gpu, increment, update, count_one, count_gpus, at_name, name_gpus,
  on_router_connected,
}

abbrev pub name_at : List GpuEntry → ℕ → Option Bytes
name_at [] j = none
name_at (e ∷ es) zero = some e.name
name_at (e ∷ es) (suc j) = name_at es j

-- How many of the GPUs in front of a position have the name.
abbrev before : Bytes → List GpuEntry → ℕ → ℕ
before n [] j = 0
before n (e ∷ es) zero = 0
before n (e ∷ es) (suc j) = (if same_bytes e.name n then 1 else 0) + before n es j

abbrev occurrences : Bytes → List GpuEntry → ℕ
occurrences n [] = 0
occurrences n (e ∷ es) = (if same_bytes e.name n then 1 else 0) + occurrences n es

count_one-at_name : (o : Option ℕ) → at_name o + 1 < 65536 → count_one o ≡ at_name o + 1
count_one-at_name none h = refl
count_one-at_name (some n) h = omega arith

count_gpus-occurrences :
    (n : Bytes) (es : List GpuEntry) (counts : Bytes → Option ℕ)
    → at_name (counts n) + length es < 65536
    → at_name (count_gpus es counts n) ≡ at_name (counts n) + occurrences n es
unfolding count_gpus
count_gpus-occurrences n [] counts h = omega arith
count_gpus-occurrences n (e ∷ es) counts h =
    let next = update counts e.name (some (count_one (counts e.name))) in
    let same : same_bytes e.name n ≡ true → counts e.name ≡ counts n =
      λ s. ap counts (same_bytes→eq e.name n s) in
    let one = count_one-at_name (counts n) in
    ground (arith, same, one, count_gpus-occurrences n es next)

same_name : (a n : Bytes) → some a ≡ some n → same_bytes a n ≡ true
same_name a n h = let p : a ≡ n = cc in rw p (same_bytes_refl n)

before-occurrences :
    (n : Bytes) (es : List GpuEntry) (j : ℕ)
    → name_at es j ≡ some n
    → before n es j < occurrences n es
before-occurrences n [] j h = cc
before-occurrences n (e ∷ es) zero h = ground (arith, same_name e.name n h)
before-occurrences n (e ∷ es) (suc j) h = ground (arith, before-occurrences n es j h)

before-before :
    (n : Bytes) (es : List GpuEntry) (i j : ℕ)
    → name_at es i ≡ some n
    → name_at es j ≡ some n
    → i < j
    → before n es i < before n es j
before-before n [] i j h k l = cc
before-before n (e ∷ es) i zero h k l = omega arith
before-before n (e ∷ es) zero (suc j) h k l = ground (arith, same_name e.name n h)
before-before n (e ∷ es) (suc i) (suc j) h k l =
    ground (arith, before-before n es i j h k (omega arith))

-- The name of the GPU at a position.
abbrev pub name_of : List Gpu → ℕ → Option Bytes
name_of gs j = get_elem? (map (λ g. g.gpu_name) gs) j

name_gpus-format :
    (format : Bytes → ℕ → Bytes) (counts : Bytes → Option ℕ) (n : Bytes) (index : Bytes → ℕ)
    (es : List GpuEntry) (j : ℕ)
    → ltb 1 (at_name (counts n)) ≡ true
    → index n + length es < 65536
    → name_at es j ≡ some n
    → name_of (name_gpus format counts index es) j ≡ some (format n (index n + before n es j))
unfolding name_gpus new_gpu
name_gpus-format format counts n index [] j c b h = cc
name_gpus-format format counts n index (e ∷ es) zero c b h =
    let p : e.name ≡ n = cc in
    let q = ap (λ m. at_name (counts m)) p in
    let r = ap (λ m. format m (index m)) p in ground (arith, c, q, r)
name_gpus-format format counts n index (e ∷ es) (suc j) c b h =
    let next = update index e.name (increment (index e.name)) in
    let same : same_bytes e.name n ≡ true → e.name ≡ n = same_bytes→eq e.name n in
    let ih : (k : Bytes → ℕ)
        → k n + length es < 65536
        → name_of (name_gpus format counts k es) j ≡ some (format n (k n + before n es j)) =
      λ k m. name_gpus-format format counts n k es j c m h in
    elim (Bool-cases (same_bytes e.name n)) [
      | inl s ↦
          let t : ltb 1 (at_name (counts e.name)) ≡ true =
            ap (λ m. ltb 1 (at_name (counts m))) (same s) ∙ c in
          let up : next n ≡ index n + 1 = ground (arith, s, ap index (same s), b) in
          let place : next n + before n es j ≡ index n + (1 + before n es j) = omega arith in
          rw (t, s) (ih next (omega arith) ∙ ap (λ i. some (format n i)) place)
      | inr d ↦
          let stay : next n ≡ index n = ground (arith, d) in
          elim (Bool-cases (ltb 1 (at_name (counts e.name)))) [
            | inl t ↦
                let place : next n + before n es j ≡ index n + (0 + before n es j) =
                  omega (arith, stay) in
                rw (t, d) (ih next (omega arith) ∙ ap (λ i. some (format n i)) place)
            | inr t ↦
                let place : index n + before n es j ≡ index n + (0 + before n es j) = omega arith in
                rw (t, d) (ih index (omega arith) ∙ ap (λ i. some (format n i)) place)
          ]
    ]

-- Two GPUs with the same name get different names, where there are fewer than 2 ^ 16 GPUs and the
-- format of a name with different indices is different.
pub on_router_connected-names :
    (format : Bytes → ℕ → Bytes) (es : List GpuEntry) (n : Bytes) (i j : ℕ) (m : ClocksManager)
    → ((n' : Bytes) (i' j' : ℕ) → format n' i' ≡ format n' j' → i' ≡ j')
    → length es < 65536
    → i < j
    → name_at es i ≡ some n
    → name_at es j ≡ some n
    → let gpus = (on_router_connected format (some es) m).0.updatable_gpus in
      name_of gpus i ≢ name_of gpus j
unfolding on_router_connected
on_router_connected-names format es n i j m differ few l hi hj =
    let counts = count_gpus es (λ _. none) in
    let less = before-before n es i j hi hj l in
    let count = count_gpus-occurrences n es (λ _. none) (omega arith) in
    let many : ltb 1 (at_name (counts n)) ≡ true =
      lt→ltb 1 (at_name (counts n)) (omega (arith, less, before-occurrences n es j hj, count)) in
    let at_i = name_gpus-format format counts n (λ _. 0) es i many (omega arith) hi in
    let at_j = name_gpus-format format counts n (λ _. 0) es j many (omega arith) hj in
    λ e.
      let f : format n (0 + before n es i) ≡ format n (0 + before n es j) = cc in
      let g = differ n (0 + before n es i) (0 + before n es j) f in omega (arith, less, g)
