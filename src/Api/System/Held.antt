-- ===== src/Api/System/Held.antt =====
-- The blocks of memory that the system information holds (source/api/capture_context.cpp): copying
-- takes them, and freeing gives them back.
use radeon_developer_panel.Common.{
  ℕ, ◌+◌, ◌-◌, ◌≡◌, refl, Bool, List, [], ◌∷◌, Option, none, some, if◌then◌else◌, arith, count_id,
  count_id-erase_id, ◌==◌,
}
use radeon_developer_panel.Api.System.Info.{GpuInfo, Array, ApiGpu, ApiSystemInfo}
use radeon_developer_panel.Api.System.Populate.{
  Memory, api_alloc, free_block, populate_array, populate_gpu, populate_each, gpus_at,
  populate_gpus,
}
use radeon_developer_panel.Api.System.Calls.{free_heaps, free_gpus, free_system_info}

-- How often the block is live, and how often a pointer holds it.
abbrev pub live_count : Memory → ℕ → ℕ
live_count m f = count_id m.live f

abbrev pub held : Option ℕ → ℕ → ℕ
held none f = 0
held (some b) f = if b == f then 1 else 0

abbrev pub held_by_heaps : List ApiGpu → ℕ → ℕ
held_by_heaps [] f = 0
held_by_heaps (g ∷ gs) f = held g.heaps.block f + held_by_heaps gs f

abbrev pub held_by_gpus : Array ApiGpu → Option ℕ → ℕ → ℕ
held_by_gpus gpus none f = 0
held_by_gpus gpus (some b) f = held (some b) f + held_by_heaps gpus.items f

abbrev pub held_by_info : ApiSystemInfo → ℕ → ℕ
held_by_info info f =
    held info.drivers.block f + held info.cpus.block f + held_by_gpus info.gpus info.gpus.block f

pub live_count-free_block :
    (o : Option ℕ) (m : Memory) (f : ℕ) → live_count (free_block o m) f ≡ live_count m f - held o f
unfolding free_block
live_count-free_block none m f = omega arith
live_count-free_block (some b) m f = ground (arith, count_id-erase_id m.live b f)

pub live_count-free_heaps :
    (gs : List ApiGpu) (m : Memory) (f : ℕ)
    → live_count (free_heaps gs m) f ≡ live_count m f - held_by_heaps gs f
unfolding free_heaps
live_count-free_heaps [] m f = omega arith
live_count-free_heaps (g ∷ gs) m f = omega (
  arith,
  live_count-free_heaps gs (free_block g.heaps.block m) f,
  live_count-free_block g.heaps.block m f,
)

pub live_count-free_gpus :
    (gpus : Array ApiGpu) (o : Option ℕ) (m : Memory) (f : ℕ)
    → live_count (free_gpus gpus o m) f ≡ live_count m f - held_by_gpus gpus o f
unfolding free_gpus
live_count-free_gpus gpus none m f = omega arith
live_count-free_gpus gpus (some b) m f = omega (
  arith,
  live_count-free_block (some b) (free_heaps gpus.items m) f,
  live_count-free_heaps gpus.items m f,
)

pub live_count-free_system_info :
    (info : ApiSystemInfo) (m : Memory) (f : ℕ)
    → live_count (free_system_info (some info) m).1 f ≡ live_count m f - held_by_info info f
unfolding free_system_info
live_count-free_system_info info m f =
    let between = free_block info.drivers.block (free_block info.cpus.block m) in
    omega (
      arith,
      live_count-free_gpus info.gpus info.gpus.block between f,
      live_count-free_block info.drivers.block (free_block info.cpus.block m) f,
      live_count-free_block info.cpus.block m f,
    )

pub live_count-populate_array :
    {A : Type 0} (fails : ℕ → Bool) (xs : List A) (m : Memory) (f : ℕ)
    → let r = populate_array fails xs m in live_count r.2 f ≡ live_count m f + held r.1.block f
unfolding populate_array api_alloc
live_count-populate_array fails [] m f = omega arith
live_count-populate_array fails (x ∷ xs) m f = ground arith

pub live_count-populate_gpu :
    (fails : ℕ → Bool) (n : ℕ) (g : GpuInfo) (m : Memory) (f : ℕ)
    → let r = populate_gpu fails n g m in live_count r.1 f ≡ live_count m f + held r.0.heaps.block f
unfolding populate_gpu
live_count-populate_gpu fails n g m f = live_count-populate_array fails _ m f

pub live_count-populate_each :
    (fails : ℕ → Bool) (n : ℕ) (gs : List GpuInfo) (m : Memory) (f : ℕ)
    → let r = populate_each fails n gs m in live_count r.1 f ≡ live_count m f + held_by_heaps r.0 f
unfolding populate_each
live_count-populate_each fails n [] m f = omega arith
live_count-populate_each fails n (g ∷ gs) m f = omega (
  arith,
  live_count-populate_gpu fails n g m f,
  live_count-populate_each fails n gs (populate_gpu fails n g m).1 f,
)

pub live_count-api_alloc :
    (fails : ℕ → Bool) (m : Memory) (f : ℕ)
    → live_count (api_alloc fails m).1 f ≡ live_count m f + held (api_alloc fails m).0 f
unfolding api_alloc
live_count-api_alloc fails m f = ground arith

pub live_count-gpus_at :
    (fails : ℕ → Bool) (n : ℕ) (gs : List GpuInfo) (o : Option ℕ) (m : Memory) (f : ℕ)
    → let r = gpus_at fails n gs (o, m) in
      live_count r.2 f + held o f ≡ live_count m f + held_by_gpus r.1 r.1.block f
unfolding gpus_at
live_count-gpus_at fails n gs none m f = refl
live_count-gpus_at fails n gs (some b) m f = omega (arith, live_count-populate_each fails n gs m f)

pub live_count-populate_gpus :
    (fails : ℕ → Bool) (n : ℕ) (gs : List GpuInfo) (m : Memory) (f : ℕ)
    → let r = populate_gpus fails n gs m in
      live_count r.2 f ≡ live_count m f + held_by_gpus r.1 r.1.block f
unfolding populate_gpus
live_count-populate_gpus fails n [] m f = omega arith
live_count-populate_gpus fails n (g ∷ gs) m f =
    let (o, after) = api_alloc fails m in
    omega (arith, live_count-api_alloc fails m f, live_count-gpus_at fails n (g ∷ gs) o after f)
