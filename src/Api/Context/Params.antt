-- ===== src/Api/Context/Params.antt =====
-- The parameters of `EnableFeature` (source/api/RdpCaptureApi.h) and the configurations of the trace
-- sources (source/trace/inc/rgp_trace_source.h, rra_trace_source.h, rgd_trace_source.h), as far as
-- `EnableFeature` reads or writes them.
use radeon_developer_panel.Common.{ℕ, ◌/◌, ◌%◌, Bool, List, Option, ◌==◌, Bytes}

-- `(flags & flag) != 0` for a flag that is a power of two.
abbrev pub has_flag : (flags flag : ℕ) → Bool
has_flag flags flag = flags / flag % 2 == 1

pub record ProfilingEnableParams : Type 0 where
  pub flags : ℕ
  pub frame_capture_index : ℕ
  pub dispatch_start_index : ℕ
  pub dispatch_count : ℕ
  pub dispatch_capture_delay_ms : ℕ

pub record RaytracingEnableParams : Type 0 where
  pub flags : ℕ
  pub auto_capture_delay_ms : ℕ

-- A null array is `none`, and so is a null path.
pub record CrashAnalysisEnableParams : Type 0 where
  pub flags : ℕ
  pub pdb_search_paths : Option (List (Option Bytes))
  pub num_pdb_search_paths : ℕ

-- A callback is its address and the user data that it is called with.
pub record Callback : Type 0 where
  pub function : ℕ
  pub user_data : ℕ

-- The last three fields are the members of the union; the feature says which one is read.
pub record FeatureEnableParams : Type 0 where
  pub feature : ℕ
  pub trace_finished_callback : Callback
  pub status_callback : Callback
  pub progress_callback : Callback
  pub profiling : ProfilingEnableParams
  pub raytracing : RaytracingEnableParams
  pub crash_analysis : CrashAnalysisEnableParams

pub data AutoCaptureMode : Type 0 where
  none_mode timer frame_index dispatch_indices : AutoCaptureMode

pub record RgpConfig : Type 0 where
  pub enable_legacy_capture : Bool
  pub auto_capture_mode : AutoCaptureMode
  pub compute_auto_capture_time_ms : ℕ
  pub dispatch_start_index : ℕ
  pub dispatch_count : ℕ
  pub frame_capture_index : ℕ
  pub enable_single_token_sqtt : Bool

pub record RraConfig : Type 0 where
  pub auto_capture_enabled : Bool
  pub auto_capture_delay_ms : ℕ
  pub is_marker_capture_supported : Bool

pub record SummaryOptions : Type 0 where
  pub show_marker_source : Bool
  pub expand_markers : Bool
  pub pdb_include_subfolders : Bool
  pub pdb_search_paths : List Bytes

pub record RgdConfig : Type 0 where
  pub generate_text_summary : Bool
  pub generate_json_summary : Bool
  pub enable_advanced_crash : Bool
  pub collect_wave_sgprs : Bool
  pub collect_wave_vgprs : Bool
  pub summary_options : SummaryOptions

-- The trace source that an adapter stands for, with its configuration.
pub data Source : Type 0 where
  rgp : RgpConfig → Source
  rmv : Source
  rra : RraConfig → Source
  rgd : RgdConfig → Source

pub record Adapter : Type 0 where
  pub source : Source
  pub is_enabled : Bool
  pub trace_finished_callback : Callback
  pub status_callback : Callback
  pub progress_callback : Callback

-- `DD_DRIVER_UTILS_FEATURE` and the flag of a call of `SetFeature`: enable, or else ignore.
pub data DriverFeature : Type 0 where
  tracing crash_analysis shader_instrumentation : DriverFeature

pub record SetFeature : Type 0 where
  pub feature : DriverFeature
  pub is_enable : Bool

-- What the context meets: whether there is the driver's utility API, and what `SetFeature` answers
-- to a call after the earlier ones (the last first); whether the variable
-- RDP_CAPTURE_API_ENABLE_SINGLE_SQTT_TOKEN is set.
pub record Driver : Type 0 where
  pub has_utils : Bool
  pub accepts : List SetFeature → SetFeature → Bool
  pub wants_single_token : Bool
