-- ===== src/Trace/Source/Handlers.antt =====
-- The handlers of `BaseTraceSource` (source/trace/src/base_trace_source/base_trace_source.inl). Each is one
-- step; the calls of `SetState` that a client makes in a handler are made in their order.
use radeon_developer_panel.Common.{
  ℕ, Bool, false, not, ◌||◌, List, [], ◌∷◌, ◌++◌, Option, none, some, ◌==◌, if◌then◌else◌, Bytes,
}
use radeon_developer_panel.Api.Data.{CompletionStatus}
use radeon_developer_panel.Trace.Api.{Api}
use radeon_developer_panel.Trace.Connections.Manager.{
  ClientConnection, ConnectionInfo, new_connection, find_connection, erase_connection,
}
use radeon_developer_panel.Trace.Status.{
  is_enabled, Stage, DisabledReason, Status, new_status, same_stage,
}
use radeon_developer_panel.Trace.Source.Clients.{
  ClientState, OverlayState, client_state_to_overlay_state, BoundClient, ClientKind,
}
use radeon_developer_panel.Trace.Source.State.{
  Source, Progress, new_progress, build_status_at, push_status_event, update_trace_source_status,
  update_feature_state,
}

-- The number of the enumerator of an API.
abbrev pub api_index : Api → ℕ
api_index Api.unknown = 0
api_index Api.direct_x12 = 1
api_index Api.direct_x11 = 2
api_index Api.direct_x9 = 3
api_index Api.vulkan = 4
api_index Api.open_cl = 5
api_index Api.hip = 6
api_index Api.open_gl = 7
api_index Api.count = 8

abbrev pub has_api : List Api → Api → Bool
has_api [] api = false
has_api (a ∷ as') api = api_index a == api_index api || has_api as' api

-- `FindClient`.
unfoldable pub find_client : List BoundClient → ℕ → Option BoundClient
find_client [] id = none
find_client (c ∷ cs) id = if c.conn_info.umd_connection_id == id then some c else find_client cs id

-- `erase` at what `FindClient` returns.
unfoldable pub erase_client : List BoundClient → ℕ → List BoundClient
erase_client [] id = []
erase_client (c ∷ cs) id =
    if c.conn_info.umd_connection_id == id then cs else c ∷ erase_client cs id

unfoldable pub put_state : List BoundClient → ℕ → ClientState → List BoundClient
put_state [] id state = []
put_state (c ∷ cs) id state =
    if c.conn_info.umd_connection_id == id
    then record c { state = state } ∷ cs
    else c ∷ put_state cs id state

-- The id of the first client is taken, whichever client has changed its state.
unfoldable pub notify_first : List BoundClient → ClientState → Source → Source
unfolding update_feature_state update_trace_source_status
notify_first [] state s = s
notify_first (c ∷ cs) state s =
    update_trace_source_status
      (update_feature_state c.conn_info.umd_connection_id (client_state_to_overlay_state state) s)

unfoldable pub on_client_state_change_event : ClientState → Source → Source
unfolding notify_first
on_client_state_change_event state s = notify_first s.clients state s

-- `Client::SetState` of a client of the source, with the event that it posts.
unfoldable pub set_state : ℕ → ClientState → Source → Source
unfolding put_state on_client_state_change_event
set_state id state s =
    on_client_state_change_event state (record s { clients = put_state s.clients id state })

unfoldable pub set_states : ℕ → List ClientState → Source → Source
unfolding set_state
set_states id [] s = s
set_states id (state ∷ states) s = set_states id states (set_state id state s)

-- The events of a client that the source has taken out of its list.
unfoldable pub post_states : List ClientState → Source → Source
unfolding on_client_state_change_event
post_states [] s = s
post_states (state ∷ states) s = post_states states (on_client_state_change_event state s)

-- What `OnDriverConnected` does under the lock of the clients.
unfoldable pub add_connection : ClientConnection → Source → Source
unfolding update_feature_state
add_connection connection s =
    if has_api s.supported_apis connection.api
    then record s { pending_clients = s.pending_clients ++ connection ∷ [] }
    else record (update_feature_state connection.umd_connection_id OverlayState.disabled s) {
      unsupported_clients = s.unsupported_clients ++ connection ∷ [];
    }

unfoldable pub on_driver_connected : ConnectionInfo → Source → Source
unfolding add_connection update_feature_state update_trace_source_status
on_driver_connected info s =
    if not (is_enabled s.system_disabled_reason)
    then update_feature_state info.umd_connection_id OverlayState.disabled s
    else update_trace_source_status (add_connection (new_connection info) s)

unfoldable pub drop_connection : ℕ → Source → Source
unfolding erase_client erase_connection
drop_connection id s = record s {
  clients = erase_client s.clients id;
  unsupported_clients = erase_connection s.unsupported_clients id;
  pending_clients = erase_connection s.pending_clients id;
}

unfoldable pub disconnect_found : ClientKind → Option BoundClient → Source → Source
unfolding post_states
disconnect_found kind none s = s
disconnect_found kind (some c) s = post_states (kind.disconnect c.conn_info) s

unfoldable pub on_driver_disconnected : ClientKind → ℕ → Source → Source
unfolding disconnect_found drop_connection find_client update_trace_source_status
on_driver_disconnected kind id s =
    update_trace_source_status
      (disconnect_found kind (find_client s.clients id) (drop_connection id s))

abbrev pub new_client : ClientKind → ClientConnection → BoundClient
new_client kind connection = record {
  conn_info = connection;
  state = kind.initial_state connection;
  is_abort_trace_supported = kind.is_abort_trace_supported connection;
}

-- The request of the overlay is that of `HandleDeveloperModeOverlay`. The assertion that the client is
-- found again is left out: it has just been appended.
unfoldable pub bind_client : ClientKind → ℕ → ClientConnection → Source → Source
unfolding update_feature_state client_state_to_overlay_state
bind_client kind id connection s =
    update_feature_state id (client_state_to_overlay_state (kind.initial_state connection))
      (record s { clients = s.clients ++ new_client kind connection ∷ [] })

unfoldable pub init_found : ClientKind → ℕ → ℕ → Option ClientConnection → Source → Source
unfolding bind_client erase_connection update_trace_source_status
init_found kind id state none s = s
init_found kind id state (some connection) s =
    if not (state == kind.init_driver_state connection)
    then s
    else if not (kind.initializes connection)
    then record s { pending_clients = erase_connection s.pending_clients id }
    else update_trace_source_status (
        bind_client kind id connection
          (record s { pending_clients = erase_connection s.pending_clients id }))

unfoldable pub init_client_if_needed : ClientKind → ℕ → ℕ → Source → Source
unfolding init_found find_connection
init_client_if_needed kind id state s =
    init_found kind id state (find_connection s.pending_clients id) s

unfoldable pub handle_found : ClientKind → ℕ → ℕ → Option BoundClient → Source → Source
unfolding set_states
handle_found kind id state none s = s
handle_found kind id state (some c) s = set_states id (kind.handle_driver_state c.conn_info state) s

unfoldable pub on_driver_state_changed : ClientKind → ℕ → ℕ → Source → Source
unfolding handle_found init_client_if_needed find_client
on_driver_state_changed kind id state s =
    let s' = init_client_if_needed kind id state s in
    handle_found kind id state (find_client s'.clients id) s'

unfoldable pub set_disabled_reason : DisabledReason → Source → Source
set_disabled_reason why s = record s { system_disabled_reason = why }

unfoldable pub set_all_clients_disabled_reason : DisabledReason → Source → Source
unfolding update_trace_source_status
set_all_clients_disabled_reason why s =
    if not (is_enabled why)
    then update_trace_source_status (record s { client_disabled_reason = why })
    else s

unfoldable pub set_api_filter : List Api → Source → Source
set_api_filter apis s = record s { supported_apis = apis }

-- `WithClient`: what the client gives, or nothing where it is not found.
unfoldable pub with_client {ℓ} : {T : Type ℓ} → ℕ → (BoundClient → T) → Source → Option T
unfolding find_client
with_client id func s = elim (find_client s.clients id) [ none ↦ none | some c ↦ some (func c) ]

unfoldable pub trace_completed : CompletionStatus → Bytes → ℕ → Source → Source
trace_completed status path id s = record s {
  trace_completion_event_queue =
      s.trace_completion_event_queue
      ++ record { status = status; path = path; umd_connection_id = id } ∷ [];
}

abbrev pub push_progress : Progress → Progress → Source → Source
push_progress old new s = record s {
  capture_progress_event_queue =
      s.capture_progress_event_queue ++ record { new_progress = new; old_progress = old } ∷ [];
}

unfoldable pub emit_post_process_event : Bytes → ℕ → Source → Source
unfolding build_status_at
emit_post_process_event text progress s =
    let new = record new_progress {
      status = build_status_at Stage.processing s;
      progress = progress;
      progress_text = text;
    } in
    record (push_progress new_progress new s) { previous_progress = new }

-- `WritingProgress`.
pub record WritingProgress : Type 0 where
  pub total_bytes_to_dump : ℕ
  pub num_bytes_dumped : ℕ
  pub progress : ℕ

abbrev pub report_progress : Status → WritingProgress → Source → Source
report_progress status p s =
    let new : Progress = record {
      status = status;
      num_bytes_dumped = p.num_bytes_dumped;
      total_bytes_to_dump = p.total_bytes_to_dump;
      progress = p.progress;
      progress_text = [];
    } in
    record (push_progress s.previous_progress new s) { previous_progress = new }

unfoldable pub report_capture_progress : WritingProgress → Source → Source
unfolding build_status_at
report_capture_progress p s = report_progress (build_status_at Stage.capturing s) p s

abbrev pub with_bytes : WritingProgress → Status → Status
with_bytes p status =
    if same_stage status.trace_stage Stage.dumping
    then record status {
      total_bytes_to_dump = p.total_bytes_to_dump;
      num_bytes_dumped = p.num_bytes_dumped;
      stage_progress = p.progress;
    }
    else status

-- What the writers of `GetByteWriter` and `GetRdfWriter` report to.
unfoldable pub report_dump_progress : WritingProgress → Source → Source
unfolding build_status_at
report_dump_progress p s = report_progress (with_bytes p (build_status_at Stage.dumping s)) p s

-- One report of an operation of `PerformProcessing`.
unfoldable pub report_processing : ℕ → Source → Source
unfolding build_status_at push_status_event
report_processing progress s =
    let status = build_status_at Stage.processing s in
    push_progress s.previous_progress (record new_progress { status = status; progress = progress })
      (push_status_event (record { new_status = status; old_status = new_status }) s)
