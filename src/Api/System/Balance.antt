-- ===== src/Api/System/Balance.antt =====
-- The memory of `GetSystemInfo` and `FreeSystemInfo` (source/api/capture_context.cpp): what is taken is
-- held by the information, and freeing gives it back.
use radeon_developer_panel.Common.{
  ℕ, ◌+◌, ◌-◌, ◌≡◌, refl, ap, Bool, true, false, Option, none, some, length, arith,
}
use radeon_developer_panel.Api.Result.{is_success}
use radeon_developer_panel.Api.System.Info.{
  SystemInfo, null_array, ApiGpu, ApiSystemInfo, SystemOs, SystemDriver, SystemCpu,
}
use radeon_developer_panel.Api.System.Populate.{
  Memory, populate_drivers, populate_cpus, populate_gpus, Populated, populate_os,
  populate_driver_from_info,
}
use radeon_developer_panel.Api.System.Calls.{free_system_info, get_system_info, assemble}
use radeon_developer_panel.Api.System.Held.{
  live_count-free_system_info, live_count-populate_array, live_count-populate_gpus, live_count,
  held, held_by_gpus, held_by_info,
}

-- What is owed for the result of `GetSystemInfo`.
abbrev held_by_result : Option ApiSystemInfo → ℕ → ℕ
held_by_result none f = 0
held_by_result (some info) f = held_by_info info f

live_count-assemble :
    (os : SystemOs) (driver : SystemDriver) (d : Populated SystemDriver) (c : Populated SystemCpu)
    (g : Populated ApiGpu) (n f : ℕ)
    → live_count d.2 f ≡ n + held d.1.block f
    → live_count c.2 f ≡ live_count d.2 f + held c.1.block f
    → live_count g.2 f ≡ live_count c.2 f + held_by_gpus g.1 g.1.block f
    → let r = assemble os driver d c g in live_count r.2 f ≡ n + held_by_result r.1 f
unfolding assemble
live_count-assemble os driver d c g n f hd hc hg =
    let with_drivers : ApiSystemInfo = record {
      os = os;
      driver = driver;
      drivers = d.1;
      cpus = null_array;
      gpus = null_array;
    } in
    let with_cpus : ApiSystemInfo = record with_drivers { cpus = c.1 } in
    let with_gpus : ApiSystemInfo = record with_cpus { gpus = g.1 } in
    ground (
      arith,
      hd,
      hc,
      hg,
      live_count-free_system_info with_drivers d.2 f,
      live_count-free_system_info with_cpus c.2 f,
      live_count-free_system_info with_gpus g.2 f,
    )

live_count-populate_drivers :
    (fails : ℕ → Bool) (sys_info : SystemInfo) (m : Memory) (f : ℕ)
    → let r = populate_drivers fails sys_info m in
      live_count r.2 f ≡ live_count m f + held r.1.block f
unfolding populate_drivers
live_count-populate_drivers fails sys_info m f = live_count-populate_array fails _ m f

live_count-populate_cpus :
    (fails : ℕ → Bool) (sys_info : SystemInfo) (m : Memory) (f : ℕ)
    → let r = populate_cpus fails sys_info m in live_count r.2 f ≡ live_count m f + held r.1.block f
unfolding populate_cpus
live_count-populate_cpus fails sys_info m f = live_count-populate_array fails _ m f

live_count-free_result :
    (out : Option ApiSystemInfo) (m : Memory) (f : ℕ)
    → live_count (free_system_info out m).1 f ≡ live_count m f - held_by_result out f
unfolding free_system_info
live_count-free_result none m f = omega arith
live_count-free_result (some info) m f = live_count-free_system_info info m f

live_count-get_system_info :
    (fails : ℕ → Bool) (has_out : Bool) (sys_info : SystemInfo) (m : Memory) (f : ℕ)
    → let r = get_system_info fails has_out sys_info m in
      live_count r.2 f ≡ live_count m f + held_by_result r.1 f
unfolding get_system_info
live_count-get_system_info fails false sys_info m f = omega arith
live_count-get_system_info fails true sys_info m f =
    let drivers = populate_drivers fails sys_info m in
    let cpus = populate_cpus fails sys_info drivers.2 in
    let gpus = populate_gpus fails (length drivers.1.items) sys_info.gpus cpus.2 in
    live_count-assemble (populate_os sys_info.os) (populate_driver_from_info sys_info.driver)
      drivers cpus gpus (live_count m f) f (live_count-populate_drivers fails sys_info m f)
      (live_count-populate_cpus fails sys_info drivers.2 f)
      (live_count-populate_gpus fails (length drivers.1.items) sys_info.gpus cpus.2 f)

failure-assemble :
    (os : SystemOs) (driver : SystemDriver) (d : Populated SystemDriver) (c : Populated SystemCpu)
    (g : Populated ApiGpu)
    → let r = assemble os driver d c g in is_success r.0 ≡ false → r.1 ≡ none
unfolding assemble
failure-assemble os driver d c g h = ground arith

failure-get_system_info :
    (fails : ℕ → Bool) (has_out : Bool) (sys_info : SystemInfo) (m : Memory)
    → is_success (get_system_info fails has_out sys_info m).0 ≡ false
    → (get_system_info fails has_out sys_info m).1 ≡ none
unfolding get_system_info
failure-get_system_info fails false sys_info m h = refl
failure-get_system_info fails true sys_info m h =
    let drivers = populate_drivers fails sys_info m in
    let cpus = populate_cpus fails sys_info drivers.2 in
    failure-assemble (populate_os sys_info.os) (populate_driver_from_info sys_info.driver) drivers
      cpus (populate_gpus fails (length drivers.1.items) sys_info.gpus cpus.2) h

-- Whichever allocations fail: where `GetSystemInfo` does not succeed, it writes nothing to its
-- argument and frees all the memory that it took, so that every block is live as often as before.
pub get_system_info-failure :
    (fails : ℕ → Bool) (has_out : Bool) (sys_info : SystemInfo) (m : Memory) (f : ℕ)
    → is_success (get_system_info fails has_out sys_info m).0 ≡ false
    → let r = get_system_info fails has_out sys_info m in
      (r.1 ≡ none) × (live_count r.2 f ≡ live_count m f)
get_system_info-failure fails has_out sys_info m f h =
    let e = failure-get_system_info fails has_out sys_info m h in
    let l = live_count-get_system_info fails has_out sys_info m f in
    (e, omega (arith, l, ap (λ o. held_by_result o f) e))

-- Whichever allocations fail: `FreeSystemInfo` on what `GetSystemInfo` wrote frees all the memory that
-- the call took, so that every block is live as often as before both.
pub free_system_info-get_system_info :
    (fails : ℕ → Bool) (has_out : Bool) (sys_info : SystemInfo) (m : Memory) (f : ℕ)
    → let r = get_system_info fails has_out sys_info m in
      live_count (free_system_info r.1 r.2).1 f ≡ live_count m f
free_system_info-get_system_info fails has_out sys_info m f =
    let (result, out, after) = get_system_info fails has_out sys_info m in
    omega (
      arith,
      live_count-get_system_info fails has_out sys_info m f,
      live_count-free_result out after f,
    )
