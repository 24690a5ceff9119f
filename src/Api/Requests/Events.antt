-- ===== src/Api/Requests/Events.antt =====
-- The events that `TraceSourceAdapter` (source/api/trace_source_adapter.cpp) gets of its trace source. A
-- callback is whether one is set; a call of it is given by its arguments after the user data and the
-- feature.
use radeon_developer_panel.Common.{
  ℕ, Bool, not, List, [], Option, none, some, ◌==◌, if◌then◌else◌, Bytes,
}
use radeon_developer_panel.Trace.Api.{Api}
use radeon_developer_panel.Trace.Status.{Status, new_status}
use radeon_developer_panel.Api.Result.{CaptureResult, is_success}
use radeon_developer_panel.Api.Data.{
  CompletionStatus, get_capture_result_for_trace_completion_status, FeatureStage, get_capture_stage,
  DetailedStage, get_detailed_capture_stage,
}
use radeon_developer_panel.Api.Stream.Provider.{Provider, consume_stream}

-- The part of the adapter that its events change.
pub record AdapterStatus : Type 0 where
  pub current_stage : FeatureStage
  pub current_detailed_stage : DetailedStage
  pub connection_map : List (ℕ × Api)
  pub current_status : Status

abbrev pub new_adapter_status : AdapterStatus
new_adapter_status = record {
  current_stage = FeatureStage.unknown;
  current_detailed_stage = DetailedStage.unknown;
  connection_map = [];
  current_status = new_status;
}

-- A number of each enumerator; those below 0 stand after the others.
abbrev pub stage_number : DetailedStage → ℕ
stage_number DetailedStage.unknown = 0
stage_number DetailedStage.disconnected = 1
stage_number DetailedStage.ready_for_capture = 2
stage_number DetailedStage.waiting_to_begin_capture = 3
stage_number DetailedStage.capturing = 4
stage_number DetailedStage.dumping = 5
stage_number DetailedStage.processing = 6
stage_number DetailedStage.done = 7
stage_number DetailedStage.encountered_error = 8
stage_number DetailedStage.busy = 9
stage_number DetailedStage.disabled = 10
stage_number DetailedStage.disabled_from_error = 11
stage_number DetailedStage.hardware_unsupported = 12
stage_number DetailedStage.os_unsupported = 13
stage_number DetailedStage.driver_unsupported = 14
stage_number DetailedStage.api_unsupported = 15

-- A call of the status callback.
pub record StatusCall : Type 0 where
  pub new_stage : DetailedStage
  pub old_stage : DetailedStage

unfoldable pub on_trace_status_event :
    Bool → Status → AdapterStatus → AdapterStatus × Option StatusCall
unfolding get_capture_stage get_detailed_capture_stage
on_trace_status_event has_callback status a =
    let new_stage = get_detailed_capture_stage status in
    (
      record {
        current_stage = get_capture_stage status;
        current_detailed_stage = new_stage;
        connection_map = status.current_connections;
        current_status = status;
      },
      if not (stage_number new_stage == stage_number a.current_detailed_stage)
          then if has_callback
            then some (record { new_stage = new_stage; old_stage = a.current_detailed_stage })
            else none
          else none,
    )

-- A call of the callback for a finished trace; the data is null where the trace failed.
pub record FinishedCall : Type 0 where
  pub connection : ℕ
  pub result : CaptureResult
  pub size : ℕ
  pub data_bytes : Option Bytes

abbrev pub consumed_call :
    ℕ → CaptureResult → Provider × Option (ℕ × Bytes) → Provider × Option FinishedCall
consumed_call connection result (p, none) = (p, none)
consumed_call connection result (p, some (size, bytes)) = (
  p,
  some (record { connection = connection; result = result; size = size; data_bytes = some bytes }),
)

-- The data is freed after the call. The assertion that the stream can be consumed is left out.
unfoldable pub on_trace_completion_event :
    Bool → CompletionStatus → ℕ → ℕ → Provider → Provider × Option FinishedCall
unfolding get_capture_result_for_trace_completion_status consume_stream
on_trace_completion_event has_callback status path connection p =
    let result = get_capture_result_for_trace_completion_status status in
    if not has_callback
    then (p, none)
    else if not (is_success result)
    then (
      p,
      some (record { connection = connection; result = result; size = 0; data_bytes = none }),
    )
    else consumed_call connection result (consume_stream path p)
