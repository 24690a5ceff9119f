-- ===== src/Api/Context/Features.antt =====
-- `EnableFeature` and `DisableFeature` of source/api/capture_context.cpp. Both hold the context's mutex
-- and the connection lock of the client manager.
use radeon_developer_panel.Common.{
  has_id, insert_id, erase_id, ℕ, Bool, true, false, not, ◌&&◌, ◌||◌, List, [], ◌∷◌, Option, none,
  some, ◌==◌, if◌then◌else◌,
}
use radeon_developer_panel.Api.Result.{CaptureResult, is_success}
use radeon_developer_panel.Api.Client.Manager.{ClientManager}
use radeon_developer_panel.Api.Context.Feature
use radeon_developer_panel.Api.Context.Params.{
  FeatureEnableParams, Adapter, DriverFeature, SetFeature, Driver,
}
use radeon_developer_panel.Api.Context.Adapter.{
  Configured, configure_rgp, configure_rgd, configure_rra,
}

-- The parts of `RdpCaptureContextImpl` that the two functions use, and the calls of `SetFeature` that
-- were made, the last first.
pub record Context : Type 0 where
  pub adapters : List (ℕ × Adapter)
  pub enabled_features : List ℕ
  pub client_manager : ClientManager
  pub driver_calls : List SetFeature

-- `adapters_`, a map.
unfoldable pub find_adapter : List (ℕ × Adapter) → ℕ → Option Adapter
find_adapter [] feature = none
find_adapter (a ∷ more) feature = if a.0 == feature then some a.1 else find_adapter more feature

unfoldable pub put_adapter : List (ℕ × Adapter) → ℕ → Adapter → List (ℕ × Adapter)
put_adapter [] feature adapter = []
put_adapter (a ∷ more) feature adapter =
    if a.0 == feature then (a.0, adapter) ∷ more else a ∷ put_adapter more feature adapter

unfoldable pub set_enabled : Bool → Adapter → Adapter
set_enabled enabled adapter = record adapter { is_enabled = enabled }

-- A configuration that calls no driver.
abbrev pub without_driver : List SetFeature → CaptureResult × Adapter → Configured
without_driver calls (result, adapter) = (result, adapter, calls)

unfoldable pub enable_adapter :
    Driver → FeatureEnableParams → Adapter → List SetFeature → Configured
unfolding configure_rgp configure_rgd configure_rra
enable_adapter driver params adapter calls =
    let started = record adapter {
      trace_finished_callback = params.trace_finished_callback;
      status_callback = params.status_callback;
      progress_callback = params.progress_callback;
      is_enabled = true;
    } in
    if params.feature == Feature.profiling
    then configure_rgp driver params.profiling started calls
    else if params.feature == Feature.crash_analysis
    then without_driver calls (configure_rgd params.crash_analysis started)
    else if params.feature == Feature.raytracing
    then without_driver calls (configure_rra params.raytracing started)
    else (CaptureResult.success, started, calls)

-- The feature that `EnableDriverFeature` and `DisableDriverFeature` set, if there is one.
unfoldable pub driver_feature : ℕ → Option DriverFeature
driver_feature feature =
    if (feature == Feature.profiling) || (feature == Feature.raytracing)
    then some DriverFeature.tracing
    else if feature == Feature.crash_analysis
    then some DriverFeature.crash_analysis
    else none

abbrev pub call_driver :
    Driver → Bool → Option DriverFeature → List SetFeature → Bool × List SetFeature
call_driver driver enable none calls = (true, calls)
call_driver driver enable (some feature) calls =
    let call : SetFeature = record { feature = feature; is_enable = enable } in
    (driver.accepts calls call, call ∷ calls)

-- `EnableDriverFeature`, and `DisableDriverFeature` for `false`.
unfoldable pub set_driver_feature : Driver → Bool → ℕ → List SetFeature → Bool × List SetFeature
unfolding driver_feature
set_driver_feature driver enable feature calls =
    if driver.has_utils
    then call_driver driver enable (driver_feature feature) calls
    else (false, calls)

-- What is left of `EnableFeature` when the adapter is configured.
unfoldable pub finish_enable : Driver → ℕ → Context → Configured → CaptureResult × Context
unfolding set_driver_feature set_enabled put_adapter insert_id
finish_enable driver feature context (result, adapter, calls) =
    let answer = set_driver_feature driver true feature calls in
    if not (is_success result)
    then (
      result,
      record context {
        adapters = put_adapter context.adapters feature adapter;
        driver_calls = calls;
      },
    )
    else if not answer.0
    then (
      CaptureResult.failure,
      record context {
        adapters = put_adapter context.adapters feature (set_enabled false adapter);
        driver_calls = answer.1;
      },
    )
    else (
      result,
      record context {
        adapters = put_adapter context.adapters feature adapter;
        driver_calls = answer.1;
        enabled_features = insert_id feature context.enabled_features;
      },
    )

abbrev pub is_empty : List ℕ → Bool
is_empty [] = true
is_empty (i ∷ is) = false

-- A process is connected, or the call is out of turn.
unfoldable pub is_locked : Context → Bool
is_locked context = not (context.client_manager.current_process.process_id == 0)

-- Crash analysis goes with no other feature.
unfoldable pub is_incompatible : ℕ → List ℕ → Bool
is_incompatible feature enabled =
    (feature == Feature.crash_analysis) && not (is_empty enabled)
    || has_id enabled Feature.crash_analysis

unfoldable pub enable_found :
    Driver → FeatureEnableParams → Context → Option Adapter → CaptureResult × Context
unfolding is_locked is_incompatible finish_enable enable_adapter
enable_found driver params context none = (CaptureResult.invalid_params, context)
enable_found driver params context (some adapter) =
    if is_locked context || has_id context.enabled_features params.feature
    then (CaptureResult.not_ready, context)
    else if is_incompatible params.feature context.enabled_features
    then (CaptureResult.not_ready, context)
    else finish_enable driver params.feature context
        (enable_adapter driver params adapter context.driver_calls)

unfoldable pub enable_feature :
    Driver → Option FeatureEnableParams → Context → CaptureResult × Context
unfolding find_adapter enable_found
enable_feature driver none context = (CaptureResult.invalid_params, context)
enable_feature driver (some params) context =
    enable_found driver params context (find_adapter context.adapters params.feature)

unfoldable pub disable_found : Driver → ℕ → Context → Option Adapter → CaptureResult × Context
unfolding is_locked set_enabled put_adapter set_driver_feature erase_id
disable_found driver feature context none = (CaptureResult.invalid_params, context)
disable_found driver feature context (some adapter) =
    if is_locked context || not (has_id context.enabled_features feature)
    then (CaptureResult.not_ready, context)
    else (
      CaptureResult.success,
      record context {
        adapters = put_adapter context.adapters feature (set_enabled false adapter);
        driver_calls = (set_driver_feature driver false feature context.driver_calls).1;
        enabled_features = erase_id feature context.enabled_features;
      },
    )

unfoldable pub disable_feature : Driver → ℕ → Context → CaptureResult × Context
unfolding find_adapter disable_found
disable_feature driver feature context =
    disable_found driver feature context (find_adapter context.adapters feature)
