-- ===== src/Trace/Source/Calls.antt =====
-- Sequences of calls on a `BaseTraceSource`
-- (source/trace/src/base_trace_source/base_trace_source.inl), in any order.
use radeon_developer_panel.Common.{ℕ, List, [], ◌∷◌, Bytes}
use radeon_developer_panel.Api.Data.{CompletionStatus}
use radeon_developer_panel.Trace.Api.{Api}
use radeon_developer_panel.Trace.Connections.Manager.{ConnectionInfo}
use radeon_developer_panel.Trace.Status.{DisabledReason}
use radeon_developer_panel.Trace.Source.Clients.{ClientState, ClientKind}
use radeon_developer_panel.Trace.Source.State.{Source}
use radeon_developer_panel.Trace.Source.Handlers.{
  WritingProgress, on_driver_connected, on_driver_disconnected, on_driver_state_changed, set_state,
  set_disabled_reason, set_all_clients_disabled_reason, set_api_filter, trace_completed,
  emit_post_process_event, report_capture_progress, report_dump_progress, report_processing,
}

-- A handler, a change of state that a client makes by itself, or a call of a client or the user.
pub data Call : Type 0 where
  connected : ConnectionInfo → Call
  disconnected : ℕ → Call
  state_changed : ℕ → ℕ → Call
  sets_state : ℕ → ClientState → Call
  disables_system : DisabledReason → Call
  disables_clients : DisabledReason → Call
  filters : List Api → Call
  completes : CompletionStatus → Bytes → ℕ → Call
  post_processes : Bytes → ℕ → Call
  captures : WritingProgress → Call
  dumps : WritingProgress → Call
  processes : ℕ → Call

abbrev pub call : ClientKind → Call → Source → Source
call kind (connected info) s = on_driver_connected info s
call kind (disconnected id) s = on_driver_disconnected kind id s
call kind (state_changed id state) s = on_driver_state_changed kind id state s
call kind (sets_state id state) s = set_state id state s
call kind (disables_system why) s = set_disabled_reason why s
call kind (disables_clients why) s = set_all_clients_disabled_reason why s
call kind (filters apis) s = set_api_filter apis s
call kind (completes status path id) s = trace_completed status path id s
call kind (post_processes text progress) s = emit_post_process_event text progress s
call kind (captures p) s = report_capture_progress p s
call kind (dumps p) s = report_dump_progress p s
call kind (processes progress) s = report_processing progress s

abbrev pub run : ClientKind → List Call → Source → Source
run kind [] s = s
run kind (c ∷ cs) s = run kind cs (call kind c s)
