-- ===== src/Trace/Source/State.antt =====
-- The state of `BaseTraceSource` (source/trace/src/base_trace_source/base_trace_source.h) and the status
-- that it builds of it. Requests of the overlay are kept in the order in which they are made; the
-- queues hold what the reporting threads have not yet taken.
use radeon_developer_panel.Common.{
  ℕ, Bool, true, false, ◌&&◌, ◌||◌, List, [], ◌∷◌, ◌++◌, Option, none, some, ◌==◌, if◌then◌else◌,
  Bytes,
}
use radeon_developer_panel.Api.Data.{CompletionStatus}
use radeon_developer_panel.Trace.Api.{Api}
use radeon_developer_panel.Trace.Connections.Manager.{ClientConnection}
use radeon_developer_panel.Trace.Status.{
  Stage, DisabledReason, Status, new_status, change_stage, is_enabled,
}
use radeon_developer_panel.Trace.Source.Clients.{
  ClientState, state_index, max_state, client_state_to_stage, OverlayState, BoundClient,
}

pub record StatusEvent : Type 0 where
  pub new_status : Status
  pub old_status : Status

-- `TraceCaptureProgress`; the progress, a float, is given by its bits.
pub record Progress : Type 0 where
  pub status : Status
  pub num_bytes_dumped : ℕ
  pub total_bytes_to_dump : ℕ
  pub progress : ℕ
  pub progress_text : Bytes

abbrev pub new_progress : Progress
new_progress = record {
  status = new_status;
  num_bytes_dumped = 0;
  total_bytes_to_dump = 0;
  progress = 0;
  progress_text = [];
}

pub record ProgressEvent : Type 0 where
  pub new_progress : Progress
  pub old_progress : Progress

-- `TraceCompletionResult`.
pub record CompletionResult : Type 0 where
  pub status : CompletionStatus
  pub path : Bytes
  pub umd_connection_id : ℕ

-- A call of `OverlayManager::UpdateFeatureState` for the source's feature.
pub record OverlayCall : Type 0 where
  pub umd_connection_id : ℕ
  pub state : OverlayState

pub record Source : Type 0 where
  pub pending_clients : List ClientConnection
  pub clients : List BoundClient
  pub unsupported_clients : List ClientConnection
  pub supported_apis : List Api
  pub system_disabled_reason : DisabledReason
  pub client_disabled_reason : DisabledReason
  pub previous_status : Status
  pub previous_progress : Progress
  pub status_event_queue : List StatusEvent
  pub capture_progress_event_queue : List ProgressEvent
  pub trace_completion_event_queue : List CompletionResult
  pub overlay_calls : List OverlayCall

abbrev pub new_source : Source
new_source = record {
  pending_clients = [];
  clients = [];
  unsupported_clients = [];
  supported_apis = Api.vulkan ∷ Api.direct_x12 ∷ [];
  system_disabled_reason = DisabledReason.enabled;
  client_disabled_reason = DisabledReason.no_reason;
  previous_status = new_status;
  previous_progress = new_progress;
  status_event_queue = [];
  capture_progress_event_queue = [];
  trace_completion_event_queue = [];
  overlay_calls = [];
}

-- The loop of `GetTraceSourceStage`.
unfoldable pub highest_state : ClientState → List BoundClient → ClientState
highest_state state [] = state
highest_state state (c ∷ cs) = highest_state (max_state state c.state) cs

abbrev stage_of_unsupported : List ClientConnection → Stage
stage_of_unsupported [] = Stage.disconnected
stage_of_unsupported (c ∷ cs) = Stage.disabled

unfoldable pub stage_of : List BoundClient → List ClientConnection → Stage
unfolding highest_state client_state_to_stage
stage_of [] unsupported = stage_of_unsupported unsupported
stage_of (c ∷ cs) unsupported = client_state_to_stage (highest_state c.state cs)

unfoldable pub get_trace_source_stage : Source → Stage
unfolding stage_of
get_trace_source_stage s = stage_of s.clients s.unsupported_clients

-- The connection that `FillProcessInfo` takes.
unfoldable pub process_connection :
    List BoundClient → List ClientConnection → List ClientConnection → Option ClientConnection
process_connection (c ∷ cs) unsupported pending = some c.conn_info
process_connection [] (c ∷ cs) pending = some c
process_connection [] [] (c ∷ cs) = some c
process_connection [] [] [] = none

abbrev pub put_process : Option ClientConnection → Status → Status
put_process none status = record status { pid = 0; application_name = [] }
put_process (some c) status = record status { pid = c.client_pid; application_name = c.client_name }

unfoldable pub fill_process_info : Source → Status → Status
unfolding process_connection
fill_process_info s status =
    put_process (process_connection s.clients s.unsupported_clients s.pending_clients) status

abbrev pub is_state : ClientState → ClientState → Bool
is_state a b = state_index a == state_index b

unfoldable pub all_disabled : List BoundClient → Bool
all_disabled [] = true
all_disabled (c ∷ cs) = is_state c.state ClientState.disabled && all_disabled cs

abbrev fill_unsupported_reason : List ClientConnection → Status → Status
fill_unsupported_reason [] status = status
fill_unsupported_reason (c ∷ cs) status = record status {
  disabled_reason = DisabledReason.api_unsupported;
}

unfoldable pub fill_client_reason :
    DisabledReason → List BoundClient → List ClientConnection → Status → Status
unfolding all_disabled
fill_client_reason why [] unsupported status = fill_unsupported_reason unsupported status
fill_client_reason why (c ∷ cs) unsupported status =
    if all_disabled (c ∷ cs) then record status { disabled_reason = why } else status

unfoldable pub fill_disabled_reason : Source → Status → Status
unfolding fill_client_reason
fill_disabled_reason s status =
    if is_enabled s.system_disabled_reason
    then fill_client_reason s.client_disabled_reason s.clients s.unsupported_clients status
    else record status { disabled_reason = s.system_disabled_reason }

abbrev pub has_connection : ℕ → List (ℕ × Api) → Bool
has_connection id [] = false
has_connection id ((i, api) ∷ cs) = i == id || has_connection id cs

-- `insert` of an `unordered_map` keeps the value of a key that it holds.
unfoldable pub insert_connection : ℕ → Api → List (ℕ × Api) → List (ℕ × Api)
insert_connection id api cs = if has_connection id cs then cs else cs ++ (id, api) ∷ []

abbrev pub is_usable : ClientState → Bool
is_usable ClientState.done = false
is_usable ClientState.disabled = false
is_usable ClientState.error = false
is_usable _ = true

unfoldable pub usable_connections : List BoundClient → List (ℕ × Api) → List (ℕ × Api)
unfolding insert_connection
usable_connections [] connections = connections
usable_connections (c ∷ cs) connections = usable_connections cs (
    if is_usable c.state
    then insert_connection c.conn_info.umd_connection_id c.conn_info.api connections
    else connections)

unfoldable pub fill_current_connections : Source → Status → Status
unfolding usable_connections
fill_current_connections s status = record status {
  current_connections = usable_connections s.clients status.current_connections;
}

unfoldable pub all_abort : List BoundClient → Bool
all_abort [] = true
all_abort (c ∷ cs) = c.is_abort_trace_supported && all_abort cs

unfoldable pub fill_abort_supported : Source → Status → Status
unfolding all_abort
fill_abort_supported s status = record status { abort_trace_supported = all_abort s.clients }

-- `BuildCurrentStatus` with the stage of an override.
unfoldable pub build_status_at : Stage → Source → Status
unfolding change_stage fill_process_info fill_disabled_reason fill_current_connections
    fill_abort_supported
build_status_at stage s = fill_abort_supported s (
    fill_current_connections s
      (fill_disabled_reason s (fill_process_info s (change_stage stage new_status))))

unfoldable pub build_current_status : Source → Status
unfolding build_status_at get_trace_source_stage
build_current_status s = build_status_at (get_trace_source_stage s) s

unfoldable pub push_status_event : StatusEvent → Source → Source
push_status_event event s = record s { status_event_queue = s.status_event_queue ++ event ∷ [] }

unfoldable pub update_trace_source_status : Source → Source
unfolding build_current_status push_status_event
update_trace_source_status s =
    let status = build_current_status s in
    record (push_status_event (record { new_status = status; old_status = s.previous_status }) s) {
      previous_status = status;
    }

unfoldable pub update_feature_state : ℕ → OverlayState → Source → Source
update_feature_state id state s = record s {
  overlay_calls = s.overlay_calls ++ record { umd_connection_id = id; state = state } ∷ [];
}
