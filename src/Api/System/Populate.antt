-- ===== src/Api/System/Populate.antt =====
-- The copies of source/api/capture_context.cpp into the structs of the API, and the memory that they
-- take. A block of memory is a number; whether the n-th call of `ApiAlloc` fails is a parameter.
use radeon_developer_panel.Common.{
  ℕ, ◌+◌, ◌-◌, Bool, true, false, ◌&&◌, List, [], ◌∷◌, ◌++◌, map, Option, none, some, ltb,
  if◌then◌else◌, Bytes, length, take, replicate, erase_id,
}
use radeon_developer_panel.Api.System.Info.{
  DriverInfo, CpuInfo, HeapInfo, GpuInfo, OsInfo, SystemInfo, SystemOs, SystemDriver, SystemCpu,
  GpuMemoryHeap, Array, null_array, ApiGpu,
}

-- The number of calls of `ApiAlloc` so far, and the blocks that are not freed.
pub record Memory : Type 0 where
  pub calls : ℕ
  pub live : List ℕ

unfoldable pub api_alloc : (ℕ → Bool) → Memory → Option ℕ × Memory
api_alloc fails m =
    if fails m.calls
    then (none, record m { calls = m.calls + 1 })
    else (some m.calls, record { calls = m.calls + 1; live = m.calls ∷ m.live })

-- `if (block != nullptr) ApiFree(block);`
unfoldable pub free_block : Option ℕ → Memory → Memory
unfolding erase_id
free_block none m = m
free_block (some b) m = record m { live = erase_id b m.live }

-- `CopyStringField` into a buffer of `n` bytes that are 0.
unfoldable pub copy_string_field : ℕ → Bytes → Bytes
copy_string_field n src = take (n - 1) src ++ replicate (n - length (take (n - 1) src)) 0

unfoldable pub populate_os : OsInfo → SystemOs
unfolding copy_string_field
populate_os os = record {
  name = copy_string_field 128 os.name;
  description = copy_string_field 256 os.desc;
  hostname = copy_string_field 128 os.hostname;
  memory_type = copy_string_field 64 os.memory_type;
  physical = os.physical;
  swap = os.swap;
  etw_supported = os.etw_is_supported;
  etw_has_permission = os.etw_has_permission;
  etw_needs_script = os.etw_needs_rgp_registry_or_usergroup;
}

unfoldable pub populate_driver_from_info : DriverInfo → SystemDriver
unfolding copy_string_field
populate_driver_from_info src = record {
  name = copy_string_field 128 src.name;
  description = copy_string_field 256 src.description;
  packaging_version = copy_string_field 64 src.packaging_version;
  packaging_date = elim src.packaging_date [
    | none ↦ replicate 32 0
    | some date ↦ copy_string_field 32 date
  ];
  software_version = copy_string_field 64 src.software_version;
  packaging_version_major = src.packaging_version_major;
  packaging_version_minor = src.packaging_version_minor;
}

abbrev is_blank : Bytes → Bool
is_blank [] = true
is_blank (c ∷ s) = false

unfoldable pub driver_info_is_empty : DriverInfo → Bool
driver_info_is_empty src =
    is_blank src.name
    && is_blank src.description
    && is_blank src.packaging_version
    && is_blank src.software_version
    && (elim src.packaging_date [ none ↦ true | some date ↦ is_blank date ])

-- Whether the copies were made, with the array and the memory.
abbrev pub Populated : Type 0 → Type 0
Populated A = Bool × Array A × Memory

abbrev array_at : {A : Type 0} → List A → Option ℕ × Memory → Populated A
array_at items (none, m) = (false, null_array, m)
array_at items (some b, m) = (true, record { block = some b; items = items }, m)

-- An array is allocated for the items, if there are any.
unfoldable pub populate_array : {A : Type 0} → (ℕ → Bool) → List A → Memory → Populated A
unfolding api_alloc
populate_array fails [] m = (true, null_array, m)
populate_array fails (x ∷ xs) m = array_at (x ∷ xs) (api_alloc fails m)

abbrev driver_list : SystemInfo → List DriverInfo → List DriverInfo
unfolding driver_info_is_empty
driver_list info [] = if driver_info_is_empty info.driver then [] else info.driver ∷ []
driver_list info (d ∷ ds) = d ∷ ds

unfoldable pub populate_drivers : (ℕ → Bool) → SystemInfo → Memory → Populated SystemDriver
unfolding populate_array populate_driver_from_info driver_list
populate_drivers fails info m =
    populate_array fails (map populate_driver_from_info (driver_list info info.drivers)) m

unfoldable pub populate_cpu : CpuInfo → SystemCpu
unfolding copy_string_field
populate_cpu cpu = record {
  name = copy_string_field 128 cpu.name;
  architecture = copy_string_field 32 cpu.architecture;
  vendor_id = copy_string_field 32 cpu.vendor_id;
  cpu_id = copy_string_field 128 cpu.cpu_id;
  device_id = copy_string_field 32 cpu.device_id;
  virtualization = copy_string_field 32 cpu.virtualization;
  num_physical_cores = cpu.num_physical_cores;
  num_logical_cores = cpu.num_logical_cores;
  max_clock_speed_mhz = cpu.max_clock_speed;
  timestamp_clock_freq_hz = cpu.timestamp_clock_frequency;
}

unfoldable pub populate_cpus : (ℕ → Bool) → SystemInfo → Memory → Populated SystemCpu
unfolding populate_array populate_cpu
populate_cpus fails info m = populate_array fails (map populate_cpu info.cpus) m

unfoldable pub populate_heap : HeapInfo → GpuMemoryHeap
unfolding copy_string_field
populate_heap heap = record {
  heap_type = copy_string_field 32 heap.heap_type;
  physical_address = heap.phys_addr;
  size = heap.size;
}

-- An index is exposed only if it points into the exported drivers.
unfoldable pub resolved_index : ℕ → Option ℕ → Option ℕ
resolved_index num_drivers none = none
resolved_index num_drivers (some parsed) = if ltb parsed num_drivers then some parsed else none

-- A GPU whose heaps get no memory has none.
unfoldable pub populate_gpu : (ℕ → Bool) → ℕ → GpuInfo → Memory → ApiGpu × Memory
unfolding populate_array populate_heap copy_string_field resolved_index
populate_gpu fails num_drivers gpu m =
    let (ok, heaps, after) = populate_array fails (map populate_heap gpu.heaps) m in
    (
      record {
        name = copy_string_field 128 gpu.name;
        numbers = gpu.numbers;
        memory_type = copy_string_field 32 gpu.memory_type;
        heaps = heaps;
        driver_index = resolved_index num_drivers gpu.driver_index;
      },
      after,
    )

unfoldable pub populate_each : (ℕ → Bool) → ℕ → List GpuInfo → Memory → List ApiGpu × Memory
unfolding populate_gpu
populate_each fails num_drivers [] m = ([], m)
populate_each fails num_drivers (g ∷ gs) m =
    let (gpu, between) = populate_gpu fails num_drivers g m in
    let (gpus, after) = populate_each fails num_drivers gs between in (gpu ∷ gpus, after)

unfoldable pub gpus_at : (ℕ → Bool) → ℕ → List GpuInfo → Option ℕ × Memory → Populated ApiGpu
unfolding populate_each
gpus_at fails num_drivers gs (none, m) = (false, null_array, m)
gpus_at fails num_drivers gs (some b, m) =
    let (gpus, after) = populate_each fails num_drivers gs m in
    (true, record { block = some b; items = gpus }, after)

unfoldable pub populate_gpus : (ℕ → Bool) → ℕ → List GpuInfo → Memory → Populated ApiGpu
unfolding gpus_at api_alloc
populate_gpus fails num_drivers [] m = (true, null_array, m)
populate_gpus fails num_drivers (g ∷ gs) m = gpus_at fails num_drivers (g ∷ gs) (api_alloc fails m)
