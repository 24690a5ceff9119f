-- ===== src/Trace/Examples/Source.antt =====
-- The theorems on source/trace/src/base_trace_source at concrete inputs.
use radeon_developer_panel.Common.{
  ℕ, ◌≡◌, refl, Bool, true, false, List, [], ◌∷◌, some, ◌==◌, if◌then◌else◌, codes, All, ◌≤◌,
}
use radeon_developer_panel.Trace.Api.{Api}
use radeon_developer_panel.Trace.Connections.Manager.{ClientConnection, ConnectionInfo}
use radeon_developer_panel.Trace.Status.{new_status, IsConsistent}
use radeon_developer_panel.Trace.Source.Clients.{
  ClientState, client_state_to_stage, state_index, BoundClient, ClientKind,
}
use radeon_developer_panel.Trace.Source.State.{
  Source, new_source, build_current_status, get_trace_source_stage, update_trace_source_status,
}
use radeon_developer_panel.Trace.Source.Handlers.{on_driver_state_changed}
use radeon_developer_panel.Trace.Source.Calls.{
  Call, run, connected, disconnected, state_changed, sets_state, dumps,
}
use radeon_developer_panel.Trace.Source.Current.{
  IsReported, update_trace_source_status-IsReported, run-IsReported,
}
use radeon_developer_panel.Trace.Source.Built.{
  build_current_status-IsConsistent, get_trace_source_stage-highest, has_state,
}
use radeon_developer_panel.Trace.Source.Placement.{listed, run-new_source-listed}
use radeon_developer_panel.Trace.Source.Failure.{on_driver_state_changed-failure}
use radeon_developer_panel.Trace.Source.Reporting.{
  Reporter, new_reporter, here, later, pushes, acts, advance, run_thread, holds, ended,
}
use radeon_developer_panel.Trace.Source.Delivery.{IsOrdered, Reach-IsOrdered, run_thread-ended}

-- Its clients are initialized in the state 2 of the driver, and capture in the state 3.
abbrev some_kind : Bool → ClientKind
some_kind succeeds = record {
  init_driver_state = λ c. 2;
  initializes = λ c. succeeds;
  initial_state = λ c. ClientState.idle;
  is_abort_trace_supported = λ c. true;
  handle_driver_state =
      λ c state. if state == 3 then ClientState.capturing ∷ ClientState.idle ∷ [] else [];
  disconnect = λ c. ClientState.done ∷ [];
}

abbrev info_of : ℕ → ConnectionInfo
info_of id = record {
  description = some (codes "AMD DirectX12 driver");
  umd_connection_id = id;
  process_id = 7;
  process_name = codes "game";
}

abbrev some_calls : List Call
some_calls =
    connected (info_of 5)
    ∷ state_changed 5 2
    ∷ connected (info_of 6)
    ∷ state_changed 5 3
    ∷ dumps (record { total_bytes_to_dump = 9; num_bytes_dumped = 4; progress = 0 })
    ∷ sets_state 5 ClientState.dumping
    ∷ disconnected 5
    ∷ []

abbrev started : Source
started = update_trace_source_status new_source

run-IsReported_example : IsReported new_status (run (some_kind true) some_calls started)
run-IsReported_example =
    run-IsReported new_status (some_kind true) (λ c. refl) some_calls started
      (tt, (tt, (tt, (tt, (tt, (tt, (tt, tt)))))))
      (update_trace_source_status-IsReported new_status new_source refl)

abbrev connection_of : ℕ → ClientConnection
connection_of id = record {
  api = Api.direct_x12;
  umd_connection_id = id;
  client_pid = 7;
  client_name = codes "game";
  has_reached_post_device_init = false;
}

abbrev some_client : ClientState → BoundClient
some_client state = record {
  conn_info = connection_of 5;
  state = state;
  is_abort_trace_supported = true;
}

abbrev with_clients : Source
with_clients = record new_source {
  clients = some_client ClientState.idle ∷ some_client ClientState.dumping ∷ [];
}

build_current_status-IsConsistent_example : IsConsistent (build_current_status with_clients)
build_current_status-IsConsistent_example = build_current_status-IsConsistent with_clients refl refl

get_trace_source_stage-highest_example :
    (top : ClientState) × (get_trace_source_stage with_clients ≡ client_state_to_stage top)
    × (has_state top (some_client ClientState.idle ∷ some_client ClientState.dumping ∷ []) ≡ true)
    × All
        (λ d. state_index d.state ≤ state_index top)
        (some_client ClientState.idle ∷ some_client ClientState.dumping ∷ [])
get_trace_source_stage-highest_example =
    get_trace_source_stage-highest with_clients (some_client ClientState.idle)
      (some_client ClientState.dumping ∷ []) refl

run-new_source-listed_example : listed (run (some_kind true) some_calls new_source) 6 ≤ 1
run-new_source-listed_example =
    run-new_source-listed (some_kind true) some_calls 6
      (refl, (tt, (refl, (tt, (tt, (tt, (tt, tt)))))))

abbrev unreported : Source
unreported = record new_source { pending_clients = connection_of 5 ∷ [] }

abbrev with_pending : Source
with_pending = record unreported { previous_status = build_current_status unreported }

on_driver_state_changed-failure_example :
    let after = on_driver_state_changed (some_kind false) 5 2 with_pending in
    (after.status_event_queue ≡ with_pending.status_event_queue)
    × (after.pending_clients ≡ [])
    × (after.previous_status.pid ≡ 7)
    × ((build_current_status after).pid ≡ 0)
unfolding build_current_status
on_driver_state_changed-failure_example =
    on_driver_state_changed-failure (some_kind false) (connection_of 5) with_pending refl refl refl
      refl refl

-- Two listeners, of which one registers after the first event is pushed.
abbrev registered : Reporter ℕ
registered = record (new_reporter ℕ) { listeners = 1 ∷ [] }

abbrev pushed_one : Reporter ℕ
pushed_one = record registered { queue = 8 ∷ []; pushed = 8 ∷ [] }

abbrev taken : Reporter ℕ
taken = record pushed_one { queue = []; thread = holds 8 }

Reach-IsOrdered_example : IsOrdered 1 taken
unfolding advance
Reach-IsOrdered_example =
    Reach-IsOrdered 1 registered
      (later (later here (pushes registered 8)) (acts pushed_one taken refl)) refl refl refl

abbrev exiting : Reporter ℕ
exiting = record (new_reporter ℕ) { listeners = 1 ∷ 2 ∷ []; queue = 8 ∷ 9 ∷ []; exit = true }

run_thread-ended_example :
    let after = run_thread 5 exiting in
    (after.thread ≡ ended)
    × (after.queue ≡ [])
    × (after.delivered ≡ (1, 8) ∷ (2, 8) ∷ (1, 9) ∷ (2, 9) ∷ [])
run_thread-ended_example = run_thread-ended exiting refl (λ e. cc)
