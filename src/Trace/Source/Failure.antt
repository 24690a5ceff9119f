-- ===== src/Trace/Source/Failure.antt =====
-- What `InitClientIfNeeded` (source/trace/src/base_trace_source/base_trace_source.inl) does where a client
-- does not initialize.
use radeon_developer_panel.Common.{
  List, Option, ==_iff, ℕ, ◌≡◌, refl, ap, ◌∙◌, false, [], ◌∷◌, none, some,
}
use radeon_developer_panel.Trace.Connections.Manager.{
  ClientConnection, find_connection, erase_connection,
}
use radeon_developer_panel.Trace.Status.{Status, new_status, change_stage}
use radeon_developer_panel.Trace.Source.Clients.{BoundClient, ClientKind}
use radeon_developer_panel.Trace.Source.State.{
  Source, build_current_status, fill_process_info, process_connection, put_process,
  fill_current_connections, fill_abort_supported, get_trace_source_stage,
}
use radeon_developer_panel.Trace.Source.Handlers.{
  find_client, init_client_if_needed, init_found, handle_found, on_driver_state_changed,
}
use radeon_developer_panel.Trace.Source.Built.{fill_disabled_reason_lem}
use radeon_developer_panel.Trace.Source.Current.{IsCurrent}

-- The process of a status that is built is that of the connection that `FillProcessInfo` takes.
abbrev pid_of : Option ClientConnection → ℕ
pid_of none = 0
pid_of (some c) = c.client_pid

put_process-pid :
    (found : Option ClientConnection) (status : Status)
    → (put_process found status).pid ≡ pid_of found
put_process-pid none status = refl
put_process-pid (some c) status = refl

build_current_status-pid :
    (s : Source)
    → (build_current_status s).pid
      ≡ pid_of (process_connection s.clients s.unsupported_clients s.pending_clients)
unfolding build_current_status fill_process_info fill_current_connections fill_abort_supported
build_current_status-pid s =
    let status = change_stage (get_trace_source_stage s) new_status in
    let found = process_connection s.clients s.unsupported_clients s.pending_clients in
    ap (λ (r : Status). r.pid) (fill_disabled_reason_lem s (put_process found status))
    ∙ put_process-pid found status

process_connection-pending :
    (cs : List BoundClient) (us ps qs : List ClientConnection)
    → cs ≡ []
    → us ≡ []
    → ps ≡ qs
    → process_connection cs us ps ≡ process_connection [] [] qs
process_connection-pending cs us ps qs e k l = rw (e, k, l)

init_found-failure :
    (kind : ClientKind) (c : ClientConnection) (s : Source)
    → kind.initializes c ≡ false
    → init_found kind c.umd_connection_id (kind.init_driver_state c) (some c) s
      ≡ record s { pending_clients = erase_connection s.pending_clients c.umd_connection_id }
unfolding init_found
init_found-failure kind c s f =
    rw ((==_iff (kind.init_driver_state c) (kind.init_driver_state c)).1 refl, f)

find_connection_self :
    (c : ClientConnection) → find_connection (c ∷ []) c.umd_connection_id ≡ some c
unfolding find_connection
find_connection_self c = rw ((==_iff c.umd_connection_id c.umd_connection_id).1 refl)

erase_connection_self : (c : ClientConnection) → erase_connection (c ∷ []) c.umd_connection_id ≡ []
unfolding erase_connection
erase_connection_self c = rw ((==_iff c.umd_connection_id c.umd_connection_id).1 refl)

handle_found-none :
    (kind : ClientKind) (id state : ℕ) (s : Source)
    → s.clients ≡ []
    → handle_found kind id state (find_client s.clients id) s ≡ s
unfolding handle_found find_client
handle_found-none kind id state s e = ap (λ cs. handle_found kind id state (find_client cs id) s) e

abbrev drop_pending : Source → List ClientConnection → Source
drop_pending s cs = record s { pending_clients = cs }

on_driver_state_changed-dropped :
    (kind : ClientKind) (c : ClientConnection) (s : Source)
    → s.pending_clients ≡ c ∷ []
    → s.clients ≡ []
    → kind.initializes c ≡ false
    → on_driver_state_changed kind c.umd_connection_id (kind.init_driver_state c) s
      ≡ drop_pending s []
unfolding on_driver_state_changed init_client_if_needed
on_driver_state_changed-dropped kind c s p q f =
    let id = c.umd_connection_id in
    let state = kind.init_driver_state c in
    let found = ap (λ cs. find_connection cs id) p ∙ find_connection_self c in
    let erased = ap (λ cs. erase_connection cs id) p ∙ erase_connection_self c in
    let e =
      ap (λ o. init_found kind id state o s) found
      ∙ init_found-failure kind c s f
      ∙ ap (drop_pending s) erased in
    ap (λ s'. handle_found kind id state (find_client s'.clients id) s') e
    ∙ handle_found-none kind id state (drop_pending s []) q

-- Where a client that is the only one does not initialize, it is dropped without a report: the status
-- that was reported last, if it was current, still has its process, but the current one has none.
pub on_driver_state_changed-failure :
    (kind : ClientKind) (c : ClientConnection) (s : Source)
    → s.pending_clients ≡ c ∷ []
    → s.clients ≡ []
    → s.unsupported_clients ≡ []
    → kind.initializes c ≡ false
    → IsCurrent s
    → let after = on_driver_state_changed kind c.umd_connection_id (kind.init_driver_state c) s in
      (after.status_event_queue ≡ s.status_event_queue)
      × (after.pending_clients ≡ [])
      × (after.previous_status.pid ≡ c.client_pid)
      × ((build_current_status after).pid ≡ 0)
unfolding process_connection
on_driver_state_changed-failure kind c s p q u f h =
    let e = on_driver_state_changed-dropped kind c s p q f in
    (
      ap (λ s'. s'.status_event_queue) e,
      ap (λ s'. s'.pending_clients) e,
      ap (λ s'. s'.previous_status.pid) e
          ∙ ap (λ (r : Status). r.pid) h
          ∙ build_current_status-pid s
          ∙ ap pid_of (
              process_connection-pending s.clients s.unsupported_clients s.pending_clients (c ∷ [])
                q u p),
      ap (λ s'. (build_current_status s').pid) e
          ∙ build_current_status-pid (drop_pending s [])
          ∙ ap pid_of (process_connection-pending s.clients s.unsupported_clients [] [] q u refl),
    )
