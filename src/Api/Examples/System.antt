-- ===== src/Api/Examples/System.antt =====
-- The theorems on the system information of source/api/capture_context.cpp at concrete inputs.
use radeon_developer_panel.Common.{
  ℕ, ◌≡◌, refl, Bool, true, false, [], ◌∷◌, none, some, ◌==◌, codes,
}
use radeon_developer_panel.Api.System.Info.{DriverInfo, GpuNumbers, GpuInfo, SystemInfo}
use radeon_developer_panel.Api.System.Populate.{Memory}
use radeon_developer_panel.Api.System.Calls.{free_system_info, get_system_info}
use radeon_developer_panel.Api.System.Held.{live_count}
use radeon_developer_panel.Api.System.Balance.{
  get_system_info-failure, free_system_info-get_system_info,
}
use radeon_developer_panel.Api.System.Copies.{Describes, get_system_info-Describes}

abbrev some_driver : DriverInfo
some_driver = record {
  name = codes "AMD driver";
  description = codes "Adrenalin";
  packaging_version = codes "25.20";
  packaging_date = none;
  software_version = [];
  packaging_version_major = 25;
  packaging_version_minor = 20;
}

abbrev some_numbers : GpuNumbers
some_numbers = record {
  luid = 1 ∷ 2 ∷ [];
  vendor_id = 4098;
  subsystem_id = 0;
  engine_clock_min_hz = 500;
  engine_clock_max_hz = 2500;
  gpu_counter_freq_hz = 100;
  family = 145;
  device_id = 29772;
  revision = 200;
  e_rev = 1;
  mem_ops_per_clock = 16;
  bus_bit_width = 384;
  bandwidth = 960;
  mem_clock_min_hz = 96;
  mem_clock_max_hz = 1250;
  pci_bus = 3;
  pci_device = 0;
  pci_function = 0;
  pci_packed_id = 768;
  big_sw_major = 2025;
  big_sw_minor = 1;
  big_sw_misc = 0;
}

-- A GPU with one heap, whose driver's index is out of range.
abbrev some_gpu : GpuInfo
some_gpu = record {
  name = codes "Radeon";
  numbers = some_numbers;
  memory_type = codes "GDDR6";
  heaps = record { heap_type = codes "Local"; phys_addr = 0; size = 24 } ∷ [];
  driver_index = some 7;
}

-- One driver and one GPU, and no CPU.
abbrev some_info : SystemInfo
some_info = record {
  os = record {
    name = codes "Linux";
    desc = [];
    hostname = codes "host";
    memory_type = [];
    physical = 64;
    swap = 8;
    etw_is_supported = false;
    etw_has_permission = false;
    etw_needs_rgp_registry_or_usergroup = false;
  };
  driver = some_driver;
  drivers = [];
  cpus = [];
  gpus = some_gpu ∷ [];
}

abbrev new_memory : Memory
new_memory = record { calls = 0; live = [] }

-- The second allocation fails.
abbrev fails_second : ℕ → Bool
fails_second n = n == 1

get_system_info-failure_example :
    ((get_system_info fails_second true some_info new_memory).1 ≡ none)
    × (live_count (get_system_info fails_second true some_info new_memory).2 0
        ≡ live_count new_memory 0)
unfolding get_system_info
get_system_info-failure_example =
    get_system_info-failure fails_second true some_info new_memory 0 refl

free_system_info-get_system_info_example :
    let r = get_system_info (λ n. false) true some_info new_memory in
    live_count (free_system_info r.1 r.2).1 1 ≡ live_count new_memory 1
free_system_info-get_system_info_example =
    free_system_info-get_system_info (λ n. false) true some_info new_memory 1

get_system_info-Describes_example :
    Describes some_info (get_system_info (λ n. false) true some_info new_memory).1
get_system_info-Describes_example = get_system_info-Describes (λ n. false) true some_info new_memory
