-- ===== src/Api/System/Calls.antt =====
-- `GetSystemInfo` and `FreeSystemInfo` of source/api/capture_context.cpp.
use radeon_developer_panel.Common.{
  ℕ, Bool, not, List, [], ◌∷◌, Option, none, some, if◌then◌else◌, length,
}
use radeon_developer_panel.Api.Result.{CaptureResult}
use radeon_developer_panel.Api.System.Info.{
  SystemInfo, Array, null_array, ApiGpu, ApiSystemInfo, SystemOs, SystemDriver, SystemCpu,
}
use radeon_developer_panel.Api.System.Populate.{
  Memory, free_block, populate_os, populate_driver_from_info, populate_drivers, populate_cpus,
  populate_gpus, Populated,
}

-- The loop over the GPUs, each with its heaps.
unfoldable pub free_heaps : List ApiGpu → Memory → Memory
unfolding free_block
free_heaps [] m = m
free_heaps (g ∷ gs) m = free_heaps gs (free_block g.heaps.block m)

unfoldable pub free_gpus : Array ApiGpu → Option ℕ → Memory → Memory
unfolding free_heaps free_block
free_gpus gpus none m = m
free_gpus gpus (some b) m = free_block (some b) (free_heaps gpus.items m)

unfoldable pub free_system_info : Option ApiSystemInfo → Memory → Option ApiSystemInfo × Memory
unfolding free_gpus free_block
free_system_info none m = (none, m)
free_system_info (some info) m = (
  some (record info { drivers = null_array; cpus = null_array; gpus = null_array }),
  free_gpus info.gpus info.gpus.block
      (free_block info.drivers.block (free_block info.cpus.block m)),
)

-- What `GetSystemInfo` makes of the copies; each is made only where the one before succeeded.
unfoldable pub assemble :
    SystemOs
    → SystemDriver
    → Populated SystemDriver
    → Populated SystemCpu
    → Populated ApiGpu
    → CaptureResult × Option ApiSystemInfo × Memory
unfolding free_system_info
assemble os driver drivers cpus gpus =
    let with_drivers : ApiSystemInfo = record {
      os = os;
      driver = driver;
      drivers = drivers.1;
      cpus = null_array;
      gpus = null_array;
    } in
    let with_cpus : ApiSystemInfo = record with_drivers { cpus = cpus.1 } in
    let with_gpus : ApiSystemInfo = record with_cpus { gpus = gpus.1 } in
    if not drivers.0
    then (CaptureResult.failure, none, (free_system_info (some with_drivers) drivers.2).1)
    else if not cpus.0
    then (CaptureResult.failure, none, (free_system_info (some with_cpus) cpus.2).1)
    else if not gpus.0
    then (CaptureResult.failure, none, (free_system_info (some with_gpus) gpus.2).1)
    else (CaptureResult.success, some with_gpus, gpus.2)

-- The result, what is written to `out_info`, and the memory. `has_out` is whether the pointer is
-- not null.
unfoldable pub get_system_info :
    (ℕ → Bool) → Bool → SystemInfo → Memory → CaptureResult × Option ApiSystemInfo × Memory
unfolding populate_os populate_driver_from_info populate_drivers populate_cpus populate_gpus
    assemble
get_system_info fails has_out sys_info m =
    let drivers = populate_drivers fails sys_info m in
    let cpus = populate_cpus fails sys_info drivers.2 in
    let gpus = populate_gpus fails (length drivers.1.items) sys_info.gpus cpus.2 in
    if not has_out
    then (CaptureResult.invalid_params, none, m)
    else assemble (populate_os sys_info.os) (populate_driver_from_info sys_info.driver) drivers cpus
        gpus
