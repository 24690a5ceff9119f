-- ===== src/Trace/Clocks/Router.antt =====
-- What `DeviceClocksManager` (source/trace/src/device_clocks.cpp) does when the router connects and
-- disconnects. The format of a name with its index is a call of the fmt library, a parameter; a map is
-- a function. The event is what the listeners get: whether the router is connected, and the GPUs.
use radeon_developer_panel.Common.{
  ℕ, ◌+◌, ◌%◌, ◌^◌, Bool, true, false, List, [], ◌∷◌, Option, none, some, ltb, if◌then◌else◌, Bytes,
  same_bytes,
}
use radeon_developer_panel.Trace.Clocks.Gpu.{DriverMode, GpuClockRange, Gpu, convert}
use radeon_developer_panel.Trace.Clocks.Manager.{ClocksManager}

-- A GPU of the system information, with what the driver answers for it: its modes, if the queries
-- succeed, and the mode that it is in.
pub record GpuEntry : Type 0 where
  pub name : Bytes
  pub gpu_id : ℕ
  pub range : GpuClockRange
  pub modes : Option (List DriverMode)
  pub driver_mode : ℕ

unfoldable pub new_gpu : Bytes → GpuEntry → Gpu
unfolding convert
new_gpu name entry = record {
  gpu_name = name;
  gpu_id = entry.gpu_id;
  clock_modes = elim entry.modes [ none ↦ [] | some modes ↦ convert entry.range modes ];
  cached_mode = none;
  driver_mode = entry.driver_mode;
}

-- `++` on `uint16_t`.
abbrev pub increment : ℕ → ℕ
increment n = (n + 1) % 2 ^ 16

abbrev pub update : {A : Type 0} → (Bytes → A) → Bytes → A → Bytes → A
update f key value k = if same_bytes key k then value else f k

-- The first loop: one at the first GPU of a name, and one more at each other.
abbrev pub count_one : Option ℕ → ℕ
count_one none = 1
count_one (some n) = increment n

unfoldable pub count_gpus : List GpuEntry → (Bytes → Option ℕ) → Bytes → Option ℕ
count_gpus [] counts = counts
count_gpus (e ∷ es) counts = count_gpus es (update counts e.name (some (count_one (counts e.name))))

-- `operator[]`.
abbrev pub at_name : Option ℕ → ℕ
at_name none = 0
at_name (some n) = n

-- The second loop.
unfoldable pub name_gpus :
    (Bytes → ℕ → Bytes) → (Bytes → Option ℕ) → (Bytes → ℕ) → List GpuEntry → List Gpu
unfolding new_gpu
name_gpus format counts index [] = []
name_gpus format counts index (e ∷ es) =
    let indexed = name_gpus format counts (update index e.name (increment (index e.name))) es in
    let plain = name_gpus format counts index es in
    if ltb 1 (at_name (counts e.name))
    then new_gpu (format e.name (index e.name)) e ∷ indexed
    else new_gpu e.name e ∷ plain

-- Nothing changes where the system information cannot be had.
unfoldable pub on_router_connected :
    (Bytes → ℕ → Bytes)
    → Option (List GpuEntry)
    → ClocksManager
    → ClocksManager × Option (Bool × List Gpu)
unfolding count_gpus name_gpus
on_router_connected format none m = (m, none)
on_router_connected format (some entries) m =
    let gpus = name_gpus format (count_gpus entries (λ n. none)) (λ n. 0) entries in
    (record m { updatable_gpus = gpus }, some (true, gpus))

unfoldable pub on_router_disconnected : ClocksManager → ClocksManager × Option (Bool × List Gpu)
on_router_disconnected m = (record m { updatable_gpus = [] }, some (false, []))
