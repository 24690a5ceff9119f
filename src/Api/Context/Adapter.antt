-- ===== src/Api/Context/Adapter.antt =====
-- How `TraceSourceAdapter` (source/api/trace_source_adapter.cpp) configures its trace source, with
-- `SetShaderInstrumentationEnabled` of source/trace/src/rgp/rgp_trace_source_impl.cpp.
use radeon_developer_panel.Common.{
  ℕ, Bool, true, false, not, ◌&&◌, List, [], ◌∷◌, Option, none, some, ltb, if◌then◌else◌, Bytes,
  take,
}
use Prim.Native.Nat.{min}
use radeon_developer_panel.Api.Result.{CaptureResult}
use radeon_developer_panel.Api.Context.Params.{
  has_flag, ProfilingEnableParams, RaytracingEnableParams, CrashAnalysisEnableParams,
  AutoCaptureMode, RgpConfig, Source, Adapter, DriverFeature, SetFeature, Driver,
}

unfoldable pub auto_capture_mode : ProfilingEnableParams → AutoCaptureMode
auto_capture_mode params =
    if has_flag params.flags 1
    then AutoCaptureMode.frame_index
    else if has_flag params.flags 2
    then if ltb 0 params.dispatch_capture_delay_ms
      then AutoCaptureMode.timer
      else AutoCaptureMode.dispatch_indices
    else AutoCaptureMode.none_mode

-- The assignments of `ConfigureRgp`.
unfoldable pub rgp_config : Driver → ProfilingEnableParams → RgpConfig → RgpConfig
unfolding auto_capture_mode
rgp_config driver params config = record config {
  frame_capture_index = params.frame_capture_index;
  auto_capture_mode = auto_capture_mode params;
  dispatch_start_index = params.dispatch_start_index;
  dispatch_count = params.dispatch_count;
  compute_auto_capture_time_ms = params.dispatch_capture_delay_ms;
  enable_single_token_sqtt =
      if driver.wants_single_token && not config.enable_legacy_capture
      then true
      else config.enable_single_token_sqtt;
}

-- The call that `SetShaderInstrumentationEnabled` makes.
abbrev pub shader_instrumentation_call : Bool → SetFeature
shader_instrumentation_call enabled = record {
  feature = DriverFeature.shader_instrumentation;
  is_enable = enabled;
}

abbrev pub Configured : Type 0
Configured = CaptureResult × Adapter × List SetFeature

unfoldable pub configure_rgp :
    Driver → ProfilingEnableParams → Adapter → List SetFeature → Configured
unfolding rgp_config
configure_rgp driver params adapter calls = elim adapter.source [
  | Source.rgp config ↦
      let call = shader_instrumentation_call (has_flag params.flags 4) in
      (
        (if driver.accepts calls call then CaptureResult.success else CaptureResult.failure),
        record adapter { source = Source.rgp (rgp_config driver params config) },
        call ∷ calls,
      )
  | _ ↦ (CaptureResult.failure, adapter, calls)
]

-- `kMaxPdbSearchPaths`.
abbrev pub max_pdb_search_paths : ℕ
max_pdb_search_paths = 1024

unfoldable pub present_paths : List (Option Bytes) → List Bytes
present_paths [] = []
present_paths (none ∷ ps) = present_paths ps
present_paths (some p ∷ ps) = p ∷ present_paths ps

unfoldable pub pdb_paths : CrashAnalysisEnableParams → List Bytes
unfolding present_paths
pdb_paths params = elim params.pdb_search_paths [
  | none ↦ []
  | some paths ↦
      if ltb 0 params.num_pdb_search_paths
      then present_paths (take (min params.num_pdb_search_paths max_pdb_search_paths) paths)
      else []
]

unfoldable pub configure_rgd : CrashAnalysisEnableParams → Adapter → CaptureResult × Adapter
unfolding pdb_paths
configure_rgd params adapter = elim adapter.source [
  | Source.rgd config ↦ (
    CaptureResult.success,
    record adapter {
      source = Source.rgd (record config {
        enable_advanced_crash = has_flag params.flags 1;
        generate_text_summary = false;
        generate_json_summary = false;
        summary_options = record {
          show_marker_source = has_flag params.flags 8;
          expand_markers = has_flag params.flags 16;
          pdb_include_subfolders = has_flag params.flags 32;
          pdb_search_paths = pdb_paths params;
        };
        collect_wave_sgprs = has_flag params.flags 64;
        collect_wave_vgprs = has_flag params.flags 128;
      });
    },
  )
  | _ ↦ (CaptureResult.failure, adapter)
]

unfoldable pub configure_rra : RaytracingEnableParams → Adapter → CaptureResult × Adapter
configure_rra params adapter = elim adapter.source [
  | Source.rra config ↦
      if has_flag params.flags 1 && not config.is_marker_capture_supported
      then (CaptureResult.unsupported, adapter)
      else (
        CaptureResult.success,
        record adapter {
          source = Source.rra (record config {
            auto_capture_enabled = has_flag params.flags 2;
            auto_capture_delay_ms =
                if has_flag params.flags 2 then params.auto_capture_delay_ms else 0;
          });
        },
      )
  | _ ↦ (CaptureResult.failure, adapter)
]
