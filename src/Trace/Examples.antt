-- ===== src/Trace/Examples.antt =====
-- The theorems on source/trace at concrete inputs; those on its trace sources and its overlay stand in
-- modules of their own.
mod Source
mod Overlay
mod Spm
mod Counters
mod Dumps
use radeon_developer_panel.Common.{
  refl, ℕ, ◌≢◌, ◌+◌, ◌++◌, Bytes, Bool, false, has_id, map, none, if◌then◌else◌, length, ◌≡◌, true,
  List, [], ◌∷◌, some, codes, arith,
}
use radeon_developer_panel.Trace.Status.{
  Stage, new_status, IsConsistent, change_stage, change_stage-IsConsistent,
}
use radeon_developer_panel.Trace.Clocks.Gpu.{DriverMode, GpuClockRange, Gpu, ClocksDriver, convert}
use radeon_developer_panel.Trace.Clocks.Manager.{ClocksManager, is_empty, request_gpu_mode}
use radeon_developer_panel.Trace.Clocks.Peak.{at_peak}
use radeon_developer_panel.Trace.Clocks.Asked.{
  run-updatable_gpus, has_id-run, request_gpu_mode-forced, last_asked, still_asked,
}
use radeon_developer_panel.Trace.Clocks.Peak
use radeon_developer_panel.Trace.Clocks.Router.{GpuEntry, on_router_connected}
use radeon_developer_panel.Trace.Clocks.Names.{name_of, on_router_connected-names}
use radeon_developer_panel.Trace.Connections.Manager.{ConnectionInfo, new_manager}
use radeon_developer_panel.Trace.Connections.Invariant.{
  Event, IsOnce, listed, step, run, run-new_manager-IsOnce, run-disconnected,
}
use radeon_developer_panel.Trace.Connections.Update.{watch, watch-new_manager}

abbrev some_info : ConnectionInfo
some_info = record {
  description = some (codes "AMD DirectX12 driver");
  umd_connection_id = 5;
  process_id = 7;
  process_name = codes "game";
}

-- A connection that is announced twice and becomes current; state 3 is after the device's
-- initialisation.
abbrev some_events : List Event
some_events =
    Event.enabled true
    ∷ Event.connected some_info
    ∷ Event.connected some_info
    ∷ Event.state_changed 5 3
    ∷ []

run-new_manager-IsOnce_example : IsOnce (run 3 3 some_events new_manager)
run-new_manager-IsOnce_example = run-new_manager-IsOnce 3 3 some_events

watch-new_manager_example :
    (watch 3 3 some_events (new_manager, [])).1
    ≡ (watch 3 3 some_events (new_manager, [])).0.current_connections
watch-new_manager_example = watch-new_manager 3 3 some_events

-- A GPU in the normal mode with a peak mode, and one with no modes.
abbrev peak_mode : DriverMode
peak_mode = record {
  name = codes "Peak";
  description = codes "Highest clocks";
  id = 3;
  gpu_clock = 2000;
  memory_clock = 1000;
}

abbrev some_range : GpuClockRange
some_range = record {
  min_engine_hz = 500;
  max_engine_hz = 2000;
  min_memory_hz = 400;
  max_memory_hz = 1000;
}

abbrev two_gpus : List Gpu
two_gpus =
    record {
      gpu_name = codes "first";
      gpu_id = 256;
      clock_modes = convert some_range (peak_mode ∷ []);
      cached_mode = none;
      driver_mode = 1;
    }
    ∷ record {
      gpu_name = codes "second";
      gpu_id = 512;
      clock_modes = [];
      cached_mode = none;
      driver_mode = 2;
    }
    ∷ []

abbrev kind_driver : ClocksDriver
kind_driver = record { sets = λ id mode. true; answers = λ id. true }

-- Two connections force the peak mode, and one of them stops.
abbrev some_requests : List (ℕ × Bool)
some_requests = (1, true) ∷ (2, true) ∷ (1, false) ∷ []

abbrev idle_manager : ClocksManager
idle_manager = record { updatable_gpus = two_gpus; force_peak_ids = [] }

run-updatable_gpus_example :
    (Peak.run kind_driver some_requests idle_manager).updatable_gpus
    ≡ (if still_asked some_requests then map at_peak two_gpus else two_gpus)
run-updatable_gpus_example =
    run-updatable_gpus kind_driver some_requests two_gpus ((λ i m. refl), λ i. refl)
      (refl, (refl, tt))
