-- ===== src/Api/System/Copies.antt =====
-- What `GetSystemInfo` (source/api/capture_context.cpp) copies: buffers that end in a terminator, an
-- item for every device, and indices of drivers that are there.
use radeon_developer_panel.Common.{
  ℕ, ◌+◌, ◌-◌, ◌≤◌, ◌<◌, ◌≡◌, refl, ap, ◌∙◌, Bool, true, false, List, [], ◌∷◌, ◌++◌, map, Option,
  none, some, Bytes, length, take, replicate, get_elem?, All, arith, length-append, length-take,
  length-replicate, zero, suc,
}
use radeon_developer_panel.Api.System.Info.{
  SystemInfo, GpuInfo, ApiGpu, ApiSystemInfo, SystemOs, SystemDriver, SystemCpu,
}
use radeon_developer_panel.Api.System.Populate.{
  Memory, copy_string_field, api_alloc, populate_array, populate_cpu, populate_drivers,
  populate_cpus, populate_gpu, populate_each, gpus_at, populate_gpus, resolved_index, Populated,
  populate_os, populate_driver_from_info,
}
use radeon_developer_panel.Api.System.Calls.{assemble, get_system_info}

take-take_append :
    {A : Type 0} (n : ℕ) (xs ys : List A) → take (length (take n xs)) (take n xs ++ ys) ≡ take n xs
take-take_append zero xs ys = refl
take-take_append (suc n) [] ys = refl
take-take_append (suc n) (x ∷ xs) ys = ap (λ zs. x ∷ zs) (take-take_append n xs ys)

get_elem?-append_replicate :
    (s : Bytes) (n i : ℕ) → i ≡ length s + n → get_elem? (s ++ replicate (suc n) 0) i ≡ some 0
get_elem?-append_replicate [] zero zero e = refl
get_elem?-append_replicate [] zero (suc i) e = absurd (omega (arith, e))
get_elem?-append_replicate [] (suc n) zero e = absurd (omega (arith, e))
get_elem?-append_replicate [] (suc n) (suc i) e =
    get_elem?-append_replicate [] n i (omega (arith, e))
get_elem?-append_replicate (c ∷ s) n zero e = absurd (omega (arith, e))
get_elem?-append_replicate (c ∷ s) n (suc i) e = get_elem?-append_replicate s n i (omega (arith, e))

-- `CopyStringField` fills a buffer of any size but 0 exactly, ends it with a terminator, and starts
-- it with the string, or with as much of it as leaves room for the terminator.
pub copy_string_field_lem :
    (n : ℕ) (src : Bytes)
    → 1 ≤ n
    → let kept = take (n - 1) src in
      (length (copy_string_field n src) ≡ n)
      × (get_elem? (copy_string_field n src) (n - 1) ≡ some 0)
      × (take (length kept) (copy_string_field n src) ≡ kept)
unfolding copy_string_field
copy_string_field_lem n src h =
    let kept = take (n - 1) src in
    let short : length kept ≤ n - 1 = omega (arith, length-take (n - 1) src) in
    let room : n - length kept ≡ suc (n - 1 - length kept) = omega (arith, short, h) in
    let zeros = replicate (n - length kept) 0 in
    let size : length (kept ++ zeros) ≡ n =
      omega
        (arith, length-append kept zeros, length-replicate {A = ℕ} (n - length kept) 0, short, h) in
    let end : get_elem? (kept ++ zeros) (n - 1) ≡ some 0 =
      rw room
        (get_elem?-append_replicate kept (n - 1 - length kept) (n - 1) (omega (arith, short))) in
    (size, end, take-take_append (n - 1) src zeros)

-- The index is -1 or points into the drivers.
abbrev pub PointsInto : ℕ → Option ℕ → Type 0
PointsInto n none = Unit
PointsInto n (some i) = i < n

resolved_index-PointsInto : (n : ℕ) (o : Option ℕ) → PointsInto n (resolved_index n o)
unfolding resolved_index
resolved_index-PointsInto n none = tt
resolved_index-PointsInto n (some i) = ground arith

-- What the information says of the system's devices, where there is any.
abbrev pub Describes : SystemInfo → Option ApiSystemInfo → Type 0
Describes sys_info none = Unit
Describes sys_info (some info) =
    (length info.cpus.items ≡ length sys_info.cpus)
    × (length info.gpus.items ≡ length sys_info.gpus)
    × All (λ g. PointsInto (length info.drivers.items) g.driver_index) info.gpus.items

length-populate_each :
    (fails : ℕ → Bool) (n : ℕ) (gs : List GpuInfo) (m : Memory)
    → length (populate_each fails n gs m).0 ≡ length gs
unfolding populate_each
length-populate_each fails n [] m = refl
length-populate_each fails n (g ∷ gs) m =
    ap suc (length-populate_each fails n gs (populate_gpu fails n g m).1)

populate_each-PointsInto :
    (fails : ℕ → Bool) (n : ℕ) (gs : List GpuInfo) (m : Memory)
    → All (λ g. PointsInto n g.driver_index) (populate_each fails n gs m).0
unfolding populate_each populate_gpu
populate_each-PointsInto fails n [] m = tt
populate_each-PointsInto fails n (g ∷ gs) m = (
  resolved_index-PointsInto n g.driver_index,
  populate_each-PointsInto fails n gs (populate_gpu fails n g m).1,
)

length-map : {A B : Type 0} (f : A → B) (xs : List A) → length (map f xs) ≡ length xs
length-map f [] = refl
length-map f (x ∷ xs) = ap suc (length-map f xs)

length-populate_array :
    {A : Type 0} (fails : ℕ → Bool) (xs : List A) (m : Memory)
    → (populate_array fails xs m).0 ≡ true
    → length (populate_array fails xs m).1.items ≡ length xs
unfolding populate_array api_alloc
length-populate_array fails [] m h = refl
length-populate_array fails (x ∷ xs) m h = ground arith

length-gpus_at :
    (fails : ℕ → Bool) (n : ℕ) (gs : List GpuInfo) (o : Option ℕ) (m : Memory)
    → (gpus_at fails n gs (o, m)).0 ≡ true
    → length (gpus_at fails n gs (o, m)).1.items ≡ length gs
unfolding gpus_at
length-gpus_at fails n gs none m h = cc
length-gpus_at fails n gs (some b) m h = length-populate_each fails n gs m

length-populate_gpus :
    (fails : ℕ → Bool) (n : ℕ) (gs : List GpuInfo) (m : Memory)
    → (populate_gpus fails n gs m).0 ≡ true
    → length (populate_gpus fails n gs m).1.items ≡ length gs
unfolding populate_gpus
length-populate_gpus fails n [] m h = refl
length-populate_gpus fails n (g ∷ gs) m h =
    let (o, after) = api_alloc fails m in length-gpus_at fails n (g ∷ gs) o after h

gpus_at-PointsInto :
    (fails : ℕ → Bool) (n : ℕ) (gs : List GpuInfo) (o : Option ℕ) (m : Memory)
    → All (λ g. PointsInto n g.driver_index) (gpus_at fails n gs (o, m)).1.items
unfolding gpus_at
gpus_at-PointsInto fails n gs none m = tt
gpus_at-PointsInto fails n gs (some b) m = populate_each-PointsInto fails n gs m

populate_gpus-PointsInto :
    (fails : ℕ → Bool) (n : ℕ) (gs : List GpuInfo) (m : Memory)
    → All (λ g. PointsInto n g.driver_index) (populate_gpus fails n gs m).1.items
unfolding populate_gpus
populate_gpus-PointsInto fails n [] m = tt
populate_gpus-PointsInto fails n (g ∷ gs) m =
    let (o, after) = api_alloc fails m in gpus_at-PointsInto fails n (g ∷ gs) o after

length-populate_cpus :
    (fails : ℕ → Bool) (sys_info : SystemInfo) (m : Memory)
    → (populate_cpus fails sys_info m).0 ≡ true
    → length (populate_cpus fails sys_info m).1.items ≡ length sys_info.cpus
unfolding populate_cpus
length-populate_cpus fails sys_info m h =
    length-populate_array fails (map populate_cpu sys_info.cpus) m h
    ∙ length-map populate_cpu sys_info.cpus

assemble-Describes :
    (sys_info : SystemInfo) (os : SystemOs) (driver : SystemDriver) (d : Populated SystemDriver)
    (c : Populated SystemCpu) (g : Populated ApiGpu)
    → (c.0 ≡ true → length c.1.items ≡ length sys_info.cpus)
    → (g.0 ≡ true → length g.1.items ≡ length sys_info.gpus)
    → All (λ a. PointsInto (length d.1.items) a.driver_index) g.1.items
    → Describes sys_info (assemble os driver d c g).1
unfolding assemble
assemble-Describes sys_info os driver (false, d, dm) c g hc hg p = tt
assemble-Describes sys_info os driver (true, d, dm) (false, c, cm) g hc hg p = tt
assemble-Describes sys_info os driver (true, d, dm) (true, c, cm) (false, g, gm) hc hg p = tt
assemble-Describes sys_info os driver (true, d, dm) (true, c, cm) (true, g, gm) hc hg p =
    (hc refl, hg refl, p)

-- Whichever allocations fail: the information that `GetSystemInfo` writes, if any, has an item for
-- every CPU and GPU of the system, and the index of the driver of each GPU is -1 or the index of a
-- driver that is written.
pub get_system_info-Describes :
    (fails : ℕ → Bool) (has_out : Bool) (sys_info : SystemInfo) (m : Memory)
    → Describes sys_info (get_system_info fails has_out sys_info m).1
unfolding get_system_info
get_system_info-Describes fails false sys_info m = tt
get_system_info-Describes fails true sys_info m =
    let drivers = populate_drivers fails sys_info m in
    let cpus = populate_cpus fails sys_info drivers.2 in
    let n = length drivers.1.items in
    assemble-Describes sys_info (populate_os sys_info.os)
      (populate_driver_from_info sys_info.driver) drivers cpus
      (populate_gpus fails n sys_info.gpus cpus.2) (length-populate_cpus fails sys_info drivers.2)
      (length-populate_gpus fails n sys_info.gpus cpus.2)
      (populate_gpus-PointsInto fails n sys_info.gpus cpus.2)
