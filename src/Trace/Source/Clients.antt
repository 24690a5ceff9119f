-- ===== src/Trace/Source/Clients.antt =====
-- The clients of a trace source, from source/trace/src/base_trace_source/trace_source_client.h. What a
-- kind of client does when it is created, initialized, told of a state of the driver and
-- disconnected stands in the subclasses: it is a parameter, given by the calls of `SetState` that
-- it makes in their order.
use radeon_developer_panel.Common.{ℕ, Bool, List, ltb, if◌then◌else◌}
use radeon_developer_panel.Trace.Connections.Manager.{ClientConnection}
use radeon_developer_panel.Trace.Status.{Stage}

pub data ClientState : Type 0 where
  disabled error done busy idle waiting_to_begin_capture capturing post_processing dumping :
      ClientState

-- The number of the enumerator; the stage of a source is that of its client with the highest.
abbrev pub state_index : ClientState → ℕ
state_index ClientState.disabled = 0
state_index ClientState.error = 1
state_index ClientState.done = 2
state_index ClientState.busy = 3
state_index ClientState.idle = 4
state_index ClientState.waiting_to_begin_capture = 5
state_index ClientState.capturing = 6
state_index ClientState.post_processing = 7
state_index ClientState.dumping = 8

-- `std::max`.
abbrev pub max_state : ClientState → ClientState → ClientState
max_state a b = if ltb (state_index a) (state_index b) then b else a

unfoldable pub client_state_to_stage : ClientState → Stage
client_state_to_stage ClientState.idle = Stage.idle
client_state_to_stage ClientState.disabled = Stage.disabled
client_state_to_stage ClientState.error = Stage.error
client_state_to_stage ClientState.done = Stage.done
client_state_to_stage ClientState.busy = Stage.busy
client_state_to_stage ClientState.waiting_to_begin_capture = Stage.waiting_to_begin_capture
client_state_to_stage ClientState.capturing = Stage.capturing
client_state_to_stage ClientState.post_processing = Stage.processing
client_state_to_stage ClientState.dumping = Stage.dumping

-- `OverlayState` of source/trace/inc/overlay_manager.h.
pub data OverlayState : Type 0 where
  inactive disabled error done busy idle waiting_to_begin_capture capturing dumping processing :
      OverlayState

unfoldable pub client_state_to_overlay_state : ClientState → OverlayState
client_state_to_overlay_state ClientState.disabled = OverlayState.disabled
client_state_to_overlay_state ClientState.error = OverlayState.error
client_state_to_overlay_state ClientState.done = OverlayState.done
client_state_to_overlay_state ClientState.busy = OverlayState.busy
client_state_to_overlay_state ClientState.idle = OverlayState.idle
client_state_to_overlay_state ClientState.waiting_to_begin_capture =
    OverlayState.waiting_to_begin_capture
client_state_to_overlay_state ClientState.capturing = OverlayState.capturing
client_state_to_overlay_state ClientState.post_processing = OverlayState.processing
client_state_to_overlay_state ClientState.dumping = OverlayState.dumping

-- `BoundClient`, with the state of its client.
pub record BoundClient : Type 0 where
  pub conn_info : ClientConnection
  pub state : ClientState
  pub is_abort_trace_supported : Bool

-- A kind of client.
pub record ClientKind : Type 0 where
  pub init_driver_state : ClientConnection → ℕ
  -- Whether `Initialize` succeeds.
  pub initializes : ClientConnection → Bool
  -- The state after it.
  pub initial_state : ClientConnection → ClientState
  pub is_abort_trace_supported : ClientConnection → Bool
  pub handle_driver_state : ClientConnection → ℕ → List ClientState
  pub disconnect : ClientConnection → List ClientState
