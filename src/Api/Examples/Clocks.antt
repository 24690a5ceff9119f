-- ===== src/Api/Examples/Clocks.antt =====
-- The theorem on source/api/api_clocks.cpp at a concrete input.
use radeon_developer_panel.Common.{true, List, [], ◌∷◌, none, length, codes}
use radeon_developer_panel.Trace.Clocks.Gpu.{Gpu, ClocksDriver}
use radeon_developer_panel.Trace.Clocks.Manager.{ClocksManager}
use radeon_developer_panel.Api.Clocks.{ClockGpuDetails, convert_gpus}

abbrev kind_driver : ClocksDriver
kind_driver = record { sets = λ id mode. true; answers = λ id. true }

-- Two GPUs with names of different lengths, in the normal mode.
abbrev some_gpus : List Gpu
some_gpus =
    record {
      gpu_name = codes "A";
      gpu_id = 0;
      clock_modes = [];
      cached_mode = none;
      driver_mode = 1;
    }
    ∷ record {
      gpu_name = codes "BC";
      gpu_id = 1;
      clock_modes = [];
      cached_mode = none;
      driver_mode = 1;
    }
    ∷ []

abbrev some_manager : ClocksManager
some_manager = record { updatable_gpus = some_gpus; force_peak_ids = [] }

abbrev some_details : List ClockGpuDetails
unfolding convert_gpus
some_details = convert_gpus length some_gpus []
