-- ===== src/Trace/Status.antt =====
-- `TraceSourceStatus` of source/trace/inc/source_status.h and source/trace/src/source_status.cpp, with
-- the enumerations of source/trace/inc/dev_trace_common.h. The stage's progress, a float, is given by
-- its bits: 0 is 0.0.
use radeon_developer_panel.Common.{
  ℕ, ◌≡◌, Bool, true, false, List, [], if◌then◌else◌, Bytes, arith, ◌==◌, not,
}
use radeon_developer_panel.Trace.Api.{Api}

pub data Stage : Type 0 where
  disconnected idle waiting_to_begin_capture capturing dumping processing done disabled error busy :
      Stage

pub data DisabledReason : Type 0 where
  enabled no_reason encountered_error hardware_unsupported os_unsupported driver_unsupported
        api_unsupported :
      DisabledReason

pub record Status : Type 0 where
  pub num_bytes_dumped : ℕ
  pub total_bytes_to_dump : ℕ
  pub pid : ℕ
  pub application_name : Bytes
  pub current_connections : List (ℕ × Api)
  pub stage_progress : ℕ
  pub abort_trace_supported : Bool
  pub abort_processing_supported : Bool
  pub disabled_reason : DisabledReason
  pub trace_stage : Stage

abbrev pub new_status : Status
new_status = record {
  num_bytes_dumped = 0;
  total_bytes_to_dump = 0;
  pid = 0;
  application_name = [];
  current_connections = [];
  stage_progress = 0;
  abort_trace_supported = false;
  abort_processing_supported = false;
  disabled_reason = DisabledReason.enabled;
  trace_stage = Stage.disconnected;
}

-- The number of the enumerator.
abbrev pub stage_index : Stage → ℕ
stage_index Stage.disconnected = 0
stage_index Stage.idle = 1
stage_index Stage.waiting_to_begin_capture = 2
stage_index Stage.capturing = 3
stage_index Stage.dumping = 4
stage_index Stage.processing = 5
stage_index Stage.done = 6
stage_index Stage.disabled = 7
stage_index Stage.error = 8
stage_index Stage.busy = 9

abbrev pub same_stage : Stage → Stage → Bool
same_stage s t = stage_index s == stage_index t

abbrev reason_on_entry : Stage → DisabledReason
reason_on_entry stage =
    if same_stage stage Stage.disabled then DisabledReason.no_reason else DisabledReason.enabled

unfoldable pub enter_stage : Stage → Status → Status
enter_stage new_stage s =
    if same_stage s.trace_stage new_stage
    then s
    else record s { disabled_reason = reason_on_entry new_stage; stage_progress = 0 }

unfoldable pub reset_bytes : Stage → Status → Status
reset_bytes new_stage s =
    if same_stage new_stage Stage.dumping
    then s
    else record s { num_bytes_dumped = 0; total_bytes_to_dump = 0 }

unfoldable pub change_stage : Stage → Status → Status
unfolding enter_stage reset_bytes
change_stage new_stage s = record (reset_bytes new_stage (enter_stage new_stage s)) {
  trace_stage = new_stage;
}

abbrev pub is_enabled : DisabledReason → Bool
is_enabled DisabledReason.enabled = true
is_enabled _ = false

-- There is a reason for being disabled in the disabled stage and in no other, and bytes are counted
-- in the dumping stage only.
abbrev pub IsConsistent : Status → Type 0
IsConsistent s =
    (is_enabled s.disabled_reason ≡ not (same_stage s.trace_stage Stage.disabled))
    × (same_stage s.trace_stage Stage.dumping ≡ false
        → (s.num_bytes_dumped ≡ 0) × (s.total_bytes_to_dump ≡ 0))

-- A change of the stage of a consistent status gives a consistent status.
pub change_stage-IsConsistent :
    (stage : Stage) (s : Status) → IsConsistent s → IsConsistent (change_stage stage s)
unfolding change_stage enter_stage reset_bytes
change_stage-IsConsistent stage s h = ground (arith, h.0, h.1)
