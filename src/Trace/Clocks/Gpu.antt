-- ===== src/Trace/Clocks/Gpu.antt =====
-- `DeviceClockGpu` and `UpdatableDeviceClockGpu` of source/trace/src/device_clocks.cpp. The mode that
-- the driver holds for a GPU stands in its record; whether a call of the driver succeeds is a
-- parameter.
use radeon_developer_panel.Common.{
  ℕ, ◌≡◌, Bool, true, false, not, List, [], ◌∷◌, Option, none, some, ◌==◌, if◌then◌else◌, Bytes,
  codes, same_bytes, arith,
}

-- `ClockModeType`, by its number.
abbrev pub mode_unknown : ℕ
mode_unknown = 0

abbrev pub mode_normal : ℕ
mode_normal = 1

abbrev pub mode_stable : ℕ
mode_stable = 2

abbrev pub mode_peak : ℕ
mode_peak = 3

pub record ClockMode : Type 0 where
  pub name : Bytes
  pub desc : Bytes
  pub type : ℕ
  pub mode_id : ℕ
  pub min_gpu_freq : ℕ
  pub max_gpu_freq : ℕ
  pub min_mem_freq : ℕ
  pub max_mem_freq : ℕ

-- What is read of `DDDeviceClocksClockModeInfo`.
pub record DriverMode : Type 0 where
  pub name : Bytes
  pub description : Bytes
  pub id : ℕ
  pub gpu_clock : ℕ
  pub memory_clock : ℕ

-- What is read of `system_info_utils::GpuInfo`.
pub record GpuClockRange : Type 0 where
  pub min_engine_hz : ℕ
  pub max_engine_hz : ℕ
  pub min_memory_hz : ℕ
  pub max_memory_hz : ℕ

pub record Gpu : Type 0 where
  pub gpu_name : Bytes
  pub gpu_id : ℕ
  pub clock_modes : List ClockMode
  pub cached_mode : Option ℕ
  pub driver_mode : ℕ

-- Whether `SetClockMode` takes the mode of a GPU, and whether `QueryCurrentClockMode` answers.
pub record ClocksDriver : Type 0 where
  pub sets : ℕ → ℕ → Bool
  pub answers : ℕ → Bool

unfoldable pub get_clock_mode_type : Bytes → ℕ
get_clock_mode_type name =
    if same_bytes name (codes "Normal")
    then mode_normal
    else if same_bytes name (codes "Stable")
    then mode_stable
    else if same_bytes name (codes "Peak")
    then mode_peak
    else mode_unknown

unfoldable pub convert : GpuClockRange → List DriverMode → List ClockMode
unfolding get_clock_mode_type
convert range [] = []
convert range (d ∷ ds) =
    let type = get_clock_mode_type d.name in
    let rest = convert range ds in
    if type == mode_normal
    then record {
      name = d.name;
      desc = d.description;
      type = type;
      mode_id = d.id;
      min_gpu_freq = range.min_engine_hz;
      max_gpu_freq = range.max_engine_hz;
      min_mem_freq = range.min_memory_hz;
      max_mem_freq = range.max_memory_hz;
    }
      ∷ rest
    else if type == mode_unknown
    then rest
    else record {
      name = d.name;
      desc = d.description;
      type = type;
      mode_id = d.id;
      min_gpu_freq = d.gpu_clock;
      max_gpu_freq = d.gpu_clock;
      min_mem_freq = d.memory_clock;
      max_mem_freq = d.memory_clock;
    }
      ∷ rest

unfoldable pub query_clock_mode : ClocksDriver → Gpu → ℕ
query_clock_mode driver gpu = if driver.answers gpu.gpu_id then gpu.driver_mode else mode_unknown

unfoldable pub request_mode : ClocksDriver → ℕ → Gpu → Bool × Gpu
unfolding query_clock_mode
request_mode driver mode gpu =
    let set_gpu = record gpu { driver_mode = mode } in
    if not (driver.sets gpu.gpu_id mode)
    then (false, gpu)
    else (mode == query_clock_mode driver set_gpu, set_gpu)

-- `find_if` for the peak mode.
unfoldable pub has_mode : ℕ → List ClockMode → Bool
has_mode type [] = false
has_mode type (m ∷ ms) = if m.type == type then true else has_mode type ms

abbrev pub release : ClocksDriver → Gpu → Option ℕ → Bool × Gpu
unfolding request_mode
release driver gpu none = (true, gpu)
release driver gpu (some mode) = request_mode driver mode (record gpu { cached_mode = none })

unfoldable pub set_force_peak : ClocksDriver → Bool → Gpu → Bool × Gpu
unfolding release request_mode has_mode query_clock_mode
set_force_peak driver force_peak gpu =
    if not force_peak
    then release driver gpu gpu.cached_mode
    else if not (has_mode mode_peak gpu.clock_modes)
    then (true, gpu)
    else request_mode driver mode_peak
        (record gpu { cached_mode = some (query_clock_mode driver gpu) })

-- One of the driver's modes has the name of the type.
abbrev pub has_driver_mode : ℕ → List DriverMode → Bool
has_driver_mode type [] = false
has_driver_mode type (d ∷ ds) =
    if get_clock_mode_type d.name == type then true else has_driver_mode type ds

-- The modes of a GPU hold a type that is known exactly if the driver has a mode of its name, and
-- never hold the unknown type.
pub has_mode-convert :
    (range : GpuClockRange) (type : ℕ) (ds : List DriverMode)
    → has_mode type (convert range ds)
      ≡ (if type == mode_unknown then false else has_driver_mode type ds)
unfolding has_mode convert
has_mode-convert range type [] = ground arith
has_mode-convert range type (d ∷ ds) = ground (arith, has_mode-convert range type ds)
