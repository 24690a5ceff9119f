-- ===== src/Api/Data.antt =====
-- The conversions of source/api/api_data.h from the tracing library's values to those of the capture
-- API (source/api/RdpCaptureApi.h).
use radeon_developer_panel.Common.{◌≡◌, arith}
use radeon_developer_panel.Trace.Api.{Api}
use radeon_developer_panel.Trace.Status.{Stage, DisabledReason, Status}
use radeon_developer_panel.Api.Result.{CaptureResult}

pub data GpuApi : Type 0 where
  unknown direct_x12 direct_x11 direct_x9 vulkan open_cl hip open_gl : GpuApi

unfoldable pub get_gpu_api : Api → GpuApi
get_gpu_api Api.direct_x12 = GpuApi.direct_x12
get_gpu_api Api.direct_x11 = GpuApi.direct_x11
get_gpu_api Api.direct_x9 = GpuApi.direct_x9
get_gpu_api Api.vulkan = GpuApi.vulkan
get_gpu_api Api.open_cl = GpuApi.open_cl
get_gpu_api Api.hip = GpuApi.hip
get_gpu_api Api.open_gl = GpuApi.open_gl
get_gpu_api _ = GpuApi.unknown

-- `devtrace::Result` of source/trace/inc/dev_trace_common.h.
pub data Result : Type 0 where
  success failure unsupported not_found executable_not_found not_ready : Result

unfoldable pub get_capture_result : Result → CaptureResult
get_capture_result Result.success = CaptureResult.success
get_capture_result Result.failure = CaptureResult.failure
get_capture_result Result.unsupported = CaptureResult.unsupported
get_capture_result Result.not_found = CaptureResult.not_found
get_capture_result Result.executable_not_found = CaptureResult.not_found
get_capture_result Result.not_ready = CaptureResult.not_ready

pub data CompletionStatus : Type 0 where
  unknown completed need_processing error aborted : CompletionStatus

unfoldable pub get_capture_result_for_trace_completion_status : CompletionStatus → CaptureResult
get_capture_result_for_trace_completion_status CompletionStatus.completed = CaptureResult.success
get_capture_result_for_trace_completion_status CompletionStatus.error = CaptureResult.failure
get_capture_result_for_trace_completion_status CompletionStatus.aborted = CaptureResult.aborted
get_capture_result_for_trace_completion_status _ = CaptureResult.unknown

pub data FeatureStage : Type 0 where
  unknown disconnected ready_for_capture waiting_to_begin_capture capturing done encountered_error
        busy disabled disabled_from_error hardware_unsupported os_unsupported driver_unsupported
        api_unsupported :
      FeatureStage

-- The assertion that an enabled source is not asked for its reason is left out.
unfoldable pub get_disabled_stage : DisabledReason → FeatureStage
get_disabled_stage DisabledReason.encountered_error = FeatureStage.disabled_from_error
get_disabled_stage DisabledReason.hardware_unsupported = FeatureStage.hardware_unsupported
get_disabled_stage DisabledReason.os_unsupported = FeatureStage.os_unsupported
get_disabled_stage DisabledReason.driver_unsupported = FeatureStage.driver_unsupported
get_disabled_stage DisabledReason.api_unsupported = FeatureStage.api_unsupported
get_disabled_stage _ = FeatureStage.disabled

abbrev pub capture_stage : Stage → DisabledReason → FeatureStage
unfolding get_disabled_stage
capture_stage Stage.disconnected why = FeatureStage.disconnected
capture_stage Stage.idle why = FeatureStage.ready_for_capture
capture_stage Stage.waiting_to_begin_capture why = FeatureStage.waiting_to_begin_capture
capture_stage Stage.capturing why = FeatureStage.capturing
capture_stage Stage.dumping why = FeatureStage.capturing
capture_stage Stage.processing why = FeatureStage.capturing
capture_stage Stage.done why = FeatureStage.done
capture_stage Stage.disabled why = get_disabled_stage why
capture_stage Stage.error why = FeatureStage.encountered_error
capture_stage Stage.busy why = FeatureStage.busy

unfoldable pub get_capture_stage : Status → FeatureStage
get_capture_stage s = capture_stage s.trace_stage s.disabled_reason

pub data DetailedStage : Type 0 where
  unknown disconnected ready_for_capture waiting_to_begin_capture capturing dumping processing done
        encountered_error busy disabled disabled_from_error hardware_unsupported os_unsupported
        driver_unsupported api_unsupported :
      DetailedStage

abbrev pub detailed_disabled_stage : DisabledReason → DetailedStage
detailed_disabled_stage DisabledReason.encountered_error = DetailedStage.disabled_from_error
detailed_disabled_stage DisabledReason.hardware_unsupported = DetailedStage.hardware_unsupported
detailed_disabled_stage DisabledReason.os_unsupported = DetailedStage.os_unsupported
detailed_disabled_stage DisabledReason.driver_unsupported = DetailedStage.driver_unsupported
detailed_disabled_stage DisabledReason.api_unsupported = DetailedStage.api_unsupported
detailed_disabled_stage _ = DetailedStage.disabled

abbrev pub detailed_capture_stage : Stage → DisabledReason → DetailedStage
detailed_capture_stage Stage.disconnected why = DetailedStage.disconnected
detailed_capture_stage Stage.idle why = DetailedStage.ready_for_capture
detailed_capture_stage Stage.waiting_to_begin_capture why = DetailedStage.waiting_to_begin_capture
detailed_capture_stage Stage.capturing why = DetailedStage.capturing
detailed_capture_stage Stage.dumping why = DetailedStage.dumping
detailed_capture_stage Stage.processing why = DetailedStage.processing
detailed_capture_stage Stage.done why = DetailedStage.done
detailed_capture_stage Stage.disabled why = detailed_disabled_stage why
detailed_capture_stage Stage.error why = DetailedStage.encountered_error
detailed_capture_stage Stage.busy why = DetailedStage.busy

unfoldable pub get_detailed_capture_stage : Status → DetailedStage
get_detailed_capture_stage s = detailed_capture_stage s.trace_stage s.disabled_reason

-- The stage that a detailed stage is part of.
abbrev pub coarse_stage : DetailedStage → FeatureStage
coarse_stage DetailedStage.unknown = FeatureStage.unknown
coarse_stage DetailedStage.disconnected = FeatureStage.disconnected
coarse_stage DetailedStage.ready_for_capture = FeatureStage.ready_for_capture
coarse_stage DetailedStage.waiting_to_begin_capture = FeatureStage.waiting_to_begin_capture
coarse_stage DetailedStage.capturing = FeatureStage.capturing
coarse_stage DetailedStage.dumping = FeatureStage.capturing
coarse_stage DetailedStage.processing = FeatureStage.capturing
coarse_stage DetailedStage.done = FeatureStage.done
coarse_stage DetailedStage.encountered_error = FeatureStage.encountered_error
coarse_stage DetailedStage.busy = FeatureStage.busy
coarse_stage DetailedStage.disabled = FeatureStage.disabled
coarse_stage DetailedStage.disabled_from_error = FeatureStage.disabled_from_error
coarse_stage DetailedStage.hardware_unsupported = FeatureStage.hardware_unsupported
coarse_stage DetailedStage.os_unsupported = FeatureStage.os_unsupported
coarse_stage DetailedStage.driver_unsupported = FeatureStage.driver_unsupported
coarse_stage DetailedStage.api_unsupported = FeatureStage.api_unsupported

-- The detailed stage of a status refines its stage: dumping and processing are parts of capturing,
-- and every other detailed stage is the stage of its name.
pub coarse_stage-get_detailed_capture_stage :
    (s : Status) → coarse_stage (get_detailed_capture_stage s) ≡ get_capture_stage s
unfolding get_capture_stage get_detailed_capture_stage get_disabled_stage
coarse_stage-get_detailed_capture_stage s = ground arith
