-- ===== src/Api/Examples/Contexts.antt =====
-- The theorems on source/api/capture_context.cpp at concrete inputs.
use radeon_developer_panel.Common.{
  ℕ, ◌≡◌, refl, Bool, true, false, List, [], ◌∷◌, none, some, arith,
}
use radeon_developer_panel.Api.Client.Manager.{new_client_manager}
use radeon_developer_panel.Api.Client.Single.{serve_all, new_system}
use radeon_developer_panel.Api.Context.Params.{
  Callback, FeatureEnableParams, Source, Adapter, AutoCaptureMode, Driver, DriverFeature,
}
use radeon_developer_panel.Api.Result.{is_success}
use radeon_developer_panel.Api.Context.Features.{
  Context, find_adapter, enable_feature, disable_feature,
}
use radeon_developer_panel.Api.Context.Exclusive.{
  IsExclusive, Call, enable, disable, call_all, call_all-IsExclusive,
}
use radeon_developer_panel.Api.Context.Rollback.{is_live, disable_feature-enable_feature}
use radeon_developer_panel.Api.Context.Asked.{IsAsked, call_all-IsAsked}
use radeon_developer_panel.Api.Context.Live.{IsLive, call_all-IsLive}
use radeon_developer_panel.Api.Examples.Clients.{open_client, some_events}

-- A driver that accepts every call.
abbrev kind_driver : Driver
kind_driver = record { has_utils = true; accepts = λ calls c. true; wants_single_token = false }

abbrev no_callback : Callback
no_callback = record { function = 0; user_data = 0 }

abbrev adapter_of : Source → Bool → Adapter
adapter_of source enabled = record {
  source = source;
  is_enabled = enabled;
  trace_finished_callback = no_callback;
  status_callback = no_callback;
  progress_callback = no_callback;
}

abbrev rgp_source : Source
rgp_source = Source.rgp (record {
  enable_legacy_capture = false;
  auto_capture_mode = AutoCaptureMode.none_mode;
  compute_auto_capture_time_ms = 0;
  dispatch_start_index = 1;
  dispatch_count = 0;
  frame_capture_index = 0;
  enable_single_token_sqtt = false;
})

abbrev rra_source : Source
rra_source = Source.rra (record {
  auto_capture_enabled = false;
  auto_capture_delay_ms = 0;
  is_marker_capture_supported = false;
})

-- Profiling is off, raytracing is on, and no process is connected.
abbrev some_context : Context
some_context = record {
  adapters = (1, adapter_of rgp_source false) ∷ (3, adapter_of rra_source true) ∷ [];
  enabled_features = 3 ∷ [];
  client_manager = new_client_manager;
  driver_calls = [];
}

abbrev params_of : ℕ → FeatureEnableParams
params_of feature = record {
  feature = feature;
  trace_finished_callback = no_callback;
  status_callback = no_callback;
  progress_callback = no_callback;
  profiling = record {
    flags = 5;
    frame_capture_index = 10;
    dispatch_start_index = 1;
    dispatch_count = 1;
    dispatch_capture_delay_ms = 0;
  };
  raytracing = record { flags = 0; auto_capture_delay_ms = 0 };
  crash_analysis = record { flags = 0; pdb_search_paths = none; num_pdb_search_paths = 0 };
}

abbrev some_calls : List Call
some_calls = enable (some (params_of 1)) ∷ enable (some (params_of 4)) ∷ disable 3 ∷ []

some_context-IsExclusive : IsExclusive some_context.enabled_features
some_context-IsExclusive f = ground arith

some_context-IsLive : IsLive some_context
unfolding find_adapter
some_context-IsLive f h = ground arith

call_all-IsExclusive_example :
    IsExclusive (call_all kind_driver some_calls some_context).enabled_features
call_all-IsExclusive_example =
    call_all-IsExclusive kind_driver some_calls some_context some_context-IsExclusive

call_all-IsLive_example : IsLive (call_all kind_driver some_calls some_context)
call_all-IsLive_example =
    call_all-IsLive kind_driver some_calls some_context some_context-IsExclusive some_context-IsLive

-- The same after the events above, which leave a connection of process 8.
abbrev connected_context : Context
connected_context = record some_context {
  client_manager = (serve_all open_client some_events new_system).0;
}

-- Profiling joins raytracing.
abbrev between : Context
between = (enable_feature kind_driver (some (params_of 1)) some_context).1

disable_feature-enable_feature_example :
    (between.enabled_features ≡ 1 ∷ 3 ∷ [])
    × (is_live between.adapters 1 ≡ true)
    × (is_success (disable_feature kind_driver 1 between).0 ≡ true)
    × (is_live (disable_feature kind_driver 1 between).1.adapters 1 ≡ false)
    × ((disable_feature kind_driver 1 between).1.enabled_features ≡ 3 ∷ [])
unfolding enable_feature
disable_feature-enable_feature_example =
    disable_feature-enable_feature kind_driver (params_of 1) some_context refl

-- Raytracing is on, and the driver's tracing with it.
abbrev set_context : Context
set_context = record some_context {
  driver_calls = record { feature = DriverFeature.tracing; is_enable = true } ∷ [];
}

set_context-IsAsked : IsAsked set_context
set_context-IsAsked = ((λ h. refl), (λ h. refl), λ h. cc)

-- Profiling takes the place of raytracing.
abbrev apart_calls : List Call
apart_calls = disable 3 ∷ enable (some (params_of 1)) ∷ []

call_all-IsAsked_example : IsAsked (call_all kind_driver apart_calls set_context)
unfolding enable_feature disable_feature
call_all-IsAsked_example =
    call_all-IsAsked kind_driver apart_calls set_context some_context-IsExclusive
      (refl, (refl, refl)) set_context-IsAsked
