-- ===== src/Api/System/Info.antt =====
-- The system information: what source/api/capture_context.cpp reads of `system_info_utils::SystemInfo`,
-- and the structs of source/api/RdpCaptureApi.h. A fixed buffer is the list of its bytes.
use radeon_developer_panel.Common.{ℕ, Bool, List, [], Option, none, Bytes}

pub record DriverInfo : Type 0 where
  pub name : Bytes
  pub description : Bytes
  pub packaging_version : Bytes
  pub packaging_date : Option Bytes
  pub software_version : Bytes
  pub packaging_version_major : ℕ
  pub packaging_version_minor : ℕ

pub record CpuInfo : Type 0 where
  pub name : Bytes
  pub architecture : Bytes
  pub vendor_id : Bytes
  pub cpu_id : Bytes
  pub device_id : Bytes
  pub virtualization : Bytes
  pub num_physical_cores : ℕ
  pub num_logical_cores : ℕ
  pub max_clock_speed : ℕ
  pub timestamp_clock_frequency : ℕ

pub record HeapInfo : Type 0 where
  pub heap_type : Bytes
  pub phys_addr : ℕ
  pub size : ℕ

-- What is copied of a GPU number by number: ids, clocks, the memory's rates, PCI and version.
pub record GpuNumbers : Type 0 where
  pub luid : Bytes
  pub vendor_id : ℕ
  pub subsystem_id : ℕ
  pub engine_clock_min_hz : ℕ
  pub engine_clock_max_hz : ℕ
  pub gpu_counter_freq_hz : ℕ
  pub family : ℕ
  pub device_id : ℕ
  pub revision : ℕ
  pub e_rev : ℕ
  pub mem_ops_per_clock : ℕ
  pub bus_bit_width : ℕ
  pub bandwidth : ℕ
  pub mem_clock_min_hz : ℕ
  pub mem_clock_max_hz : ℕ
  pub pci_bus : ℕ
  pub pci_device : ℕ
  pub pci_function : ℕ
  pub pci_packed_id : ℕ
  pub big_sw_major : ℕ
  pub big_sw_minor : ℕ
  pub big_sw_misc : ℕ

pub record GpuInfo : Type 0 where
  pub name : Bytes
  pub numbers : GpuNumbers
  pub memory_type : Bytes
  pub heaps : List HeapInfo
  pub driver_index : Option ℕ

pub record OsInfo : Type 0 where
  pub name : Bytes
  pub desc : Bytes
  pub hostname : Bytes
  pub memory_type : Bytes
  pub physical : ℕ
  pub swap : ℕ
  pub etw_is_supported : Bool
  pub etw_has_permission : Bool
  pub etw_needs_rgp_registry_or_usergroup : Bool

pub record SystemInfo : Type 0 where
  pub os : OsInfo
  pub driver : DriverInfo
  pub drivers : List DriverInfo
  pub cpus : List CpuInfo
  pub gpus : List GpuInfo

-- The structs of the API.
pub record SystemOs : Type 0 where
  pub name : Bytes
  pub description : Bytes
  pub hostname : Bytes
  pub memory_type : Bytes
  pub physical : ℕ
  pub swap : ℕ
  pub etw_supported : Bool
  pub etw_has_permission : Bool
  pub etw_needs_script : Bool

pub record SystemDriver : Type 0 where
  pub name : Bytes
  pub description : Bytes
  pub packaging_version : Bytes
  pub packaging_date : Bytes
  pub software_version : Bytes
  pub packaging_version_major : ℕ
  pub packaging_version_minor : ℕ

pub record SystemCpu : Type 0 where
  pub name : Bytes
  pub architecture : Bytes
  pub vendor_id : Bytes
  pub cpu_id : Bytes
  pub device_id : Bytes
  pub virtualization : Bytes
  pub num_physical_cores : ℕ
  pub num_logical_cores : ℕ
  pub max_clock_speed_mhz : ℕ
  pub timestamp_clock_freq_hz : ℕ

pub record GpuMemoryHeap : Type 0 where
  pub heap_type : Bytes
  pub physical_address : ℕ
  pub size : ℕ

-- A pointer to an array, with the items that stand there; their number is the field beside it. The
-- null pointer is `none`.
pub record Array (A : Type 0) : Type 0 where
  pub block : Option ℕ
  pub items : List A

abbrev pub null_array : {A : Type 0} → Array A
null_array = record { block = none; items = [] }

-- A `driver_index` of -1 is `none`.
pub record ApiGpu : Type 0 where
  pub name : Bytes
  pub numbers : GpuNumbers
  pub memory_type : Bytes
  pub heaps : Array GpuMemoryHeap
  pub driver_index : Option ℕ

pub record ApiSystemInfo : Type 0 where
  pub os : SystemOs
  pub driver : SystemDriver
  pub drivers : Array SystemDriver
  pub cpus : Array SystemCpu
  pub gpus : Array ApiGpu
