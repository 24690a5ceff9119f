-- ===== src/Trace/Source/Current.antt =====
-- `BaseTraceSource` (source/trace/src/base_trace_source/base_trace_source.inl): the status events follow
-- one another, and the last is the current one.
use radeon_developer_panel.Common.{
  ℕ, ◌≡◌, refl, sym, subst, ◌∙◌, true, ◌++◌, Bool-cases, inl, inr, ◌==◌, List, [], ◌∷◌, Option,
  none, some, arith, All,
}
use radeon_developer_panel.Trace.Connections.Manager.{
  ClientConnection, ConnectionInfo, find_connection, erase_connection, new_connection,
}
use radeon_developer_panel.Trace.Status.{is_enabled, Status}
use radeon_developer_panel.Trace.Source.Clients.{
  ClientState, ClientKind, BoundClient, client_state_to_overlay_state,
}
use radeon_developer_panel.Trace.Source.State.{
  StatusEvent, Source, build_current_status, update_trace_source_status, update_feature_state,
  fill_process_info, fill_disabled_reason, fill_current_connections, fill_abort_supported,
}
use radeon_developer_panel.Trace.Source.Handlers.{
  add_connection, has_api, bind_client, find_client, disconnect_found, drop_connection,
  notify_first, put_state, on_client_state_change_event, set_state, set_states, post_states,
  on_driver_connected, on_driver_disconnected, init_client_if_needed, init_found, handle_found,
  on_driver_state_changed, set_all_clients_disabled_reason, set_api_filter, trace_completed,
  emit_post_process_event, report_capture_progress, report_dump_progress,
}
use radeon_developer_panel.Trace.Source.Calls.{
  Call, call, run, connected, disconnected, state_changed, sets_state, disables_system,
  disables_clients, filters, completes, post_processes, captures, dumps, processes,
}

abbrev pub IsCurrent : Source → Type 0
IsCurrent s = s.previous_status ≡ build_current_status s

-- The events lead from one status to another, each from where the one before has led.
abbrev pub Chained : Status → List StatusEvent → Status → Type 0
Chained from [] to = from ≡ to
Chained from (e ∷ es) to = (e.old_status ≡ from) × Chained e.new_status es to

-- The queue's events lead from a status to the one that is remembered.
abbrev pub IsChained : Status → Source → Type 0
IsChained start s = Chained start s.status_event_queue s.previous_status

pub record IsReported (start : Status) (s : Source) : Type 0 where
  pub current : IsCurrent s
  pub chained : IsChained start s

Chained-append_one :
    (from to : Status) (es : List StatusEvent) (e : StatusEvent)
    → Chained from es to
    → e.old_status ≡ to
    → Chained from (es ++ e ∷ []) e.new_status
Chained-append_one from to [] e h k = (k ∙ sym h, refl)
Chained-append_one from to (x ∷ es) e h k = (h.0, Chained-append_one x.new_status to es e h.1 k)

pub update_trace_source_status-IsReported :
    (start : Status) (s : Source)
    → IsChained start s
    → IsReported start (update_trace_source_status s)
unfolding update_trace_source_status fill_process_info fill_disabled_reason fill_current_connections
    fill_abort_supported
update_trace_source_status-IsReported start s h = record {
  current = refl;
  chained =
      Chained-append_one start s.previous_status s.status_event_queue
        (record { new_status = build_current_status s; old_status = s.previous_status }) h refl;
}

put_state-nil :
    (cs : List BoundClient) (id : ℕ) (state : ClientState) → put_state cs id state ≡ [] → cs ≡ []
unfolding put_state
put_state-nil [] id state h = refl
put_state-nil (c ∷ cs) id state h = ground arith

-- No call changes the reason for which the system is disabled, which is reported with the next change
-- of a client only, and none is a report of `PerformProcessing`, whose events do not follow the others.
abbrev pub Reports : Call → Type 0
Reports (disables_system why) = ⊥
Reports (processes progress) = ⊥
Reports _ = Unit

module _ (start : Status) where
  notify_first-IsChained :
      (cs : List BoundClient) (state : ClientState) (s : Source)
      → IsChained start s
      → IsChained start (notify_first cs state s)
  unfolding notify_first update_feature_state
  notify_first-IsChained [] state s h = h
  notify_first-IsChained (c ∷ cs) state s h =
      (update_trace_source_status-IsReported start
        (update_feature_state c.conn_info.umd_connection_id (client_state_to_overlay_state state) s)
        h).chained

  -- The event reports if there is a client to report for.
  notify_first-IsReported :
      (cs : List BoundClient) (state : ClientState) (s : Source)
      → IsChained start s
      → (cs ≡ [] → IsReported start s)
      → IsReported start (notify_first cs state s)
  unfolding notify_first update_feature_state
  notify_first-IsReported [] state s h k = k refl
  notify_first-IsReported (c ∷ cs) state s h k =
      update_trace_source_status-IsReported start
        (update_feature_state c.conn_info.umd_connection_id (client_state_to_overlay_state state) s)
        h

  set_state-IsReported :
      (id : ℕ) (state : ClientState) (s : Source)
      → IsReported start s
      → IsReported start (set_state id state s)
  unfolding set_state on_client_state_change_event
  set_state-IsReported id state s h =
      notify_first-IsReported (put_state s.clients id state) state
        (record s { clients = put_state s.clients id state }) h.chained
        (λ e.
          subst (λ cs. IsReported start (record s { clients = cs }))
            (put_state-nil s.clients id state e ∙ sym e) h)

  set_states-IsReported :
      (id : ℕ) (states : List ClientState) (s : Source)
      → IsReported start s
      → IsReported start (set_states id states s)
  unfolding set_states
  set_states-IsReported id [] s h = h
  set_states-IsReported id (state ∷ states) s h =
      set_states-IsReported id states (set_state id state s) (set_state-IsReported id state s h)

  post_states-IsChained :
      (states : List ClientState) (s : Source)
      → IsChained start s
      → IsChained start (post_states states s)
  unfolding post_states on_client_state_change_event
  post_states-IsChained [] s h = h
  post_states-IsChained (state ∷ states) s h =
      post_states-IsChained states (on_client_state_change_event state s)
        (notify_first-IsChained s.clients state s h)

  disconnect_found-IsChained :
      (kind : ClientKind) (found : Option BoundClient) (s : Source)
      → IsChained start s
      → IsChained start (disconnect_found kind found s)
  unfolding disconnect_found
  disconnect_found-IsChained kind none s h = h
  disconnect_found-IsChained kind (some c) s h =
      post_states-IsChained (kind.disconnect c.conn_info) s h

  add_connection-IsChained :
      (connection : ClientConnection) (s : Source)
      → IsChained start s
      → IsChained start (add_connection connection s)
  unfolding add_connection update_feature_state
  add_connection-IsChained connection s h =
      elim (Bool-cases (has_api s.supported_apis connection.api)) [
        | inl e ↦ rw e h
        | inr e ↦ rw e h
      ]

  on_driver_connected-IsReported :
      (info : ConnectionInfo) (s : Source)
      → IsReported start s
      → IsReported start (on_driver_connected info s)
  unfolding on_driver_connected update_feature_state
  on_driver_connected-IsReported info s h =
      elim (Bool-cases (is_enabled s.system_disabled_reason)) [
        | inl e ↦ rw e (
            update_trace_source_status-IsReported start (add_connection (new_connection info) s)
              (add_connection-IsChained (new_connection info) s h.chained))
        | inr e ↦ rw e (record { current = h.current; chained = h.chained })
      ]

  -- Every client that is created initializes.
  module _ (kind : ClientKind)
      (initializes : (c : ClientConnection) → kind.initializes c ≡ true) where
    init_found-IsReported :
        (id state : ℕ) (found : Option ClientConnection) (s : Source)
        → IsReported start s
        → IsReported start (init_found kind id state found s)
    unfolding init_found bind_client update_feature_state
    init_found-IsReported id state none s h = h
    init_found-IsReported id state (some c) s h =
        elim (Bool-cases (state == kind.init_driver_state c)) [
          | inl e ↦
              rw (e, initializes c)
                (update_trace_source_status-IsReported start
                  (bind_client kind id c
                    (record s { pending_clients = erase_connection s.pending_clients id }))
                  h.chained)
          | inr e ↦ rw e h
        ]

    handle_found-IsReported :
        (id state : ℕ) (found : Option BoundClient) (s : Source)
        → IsReported start s
        → IsReported start (handle_found kind id state found s)
    unfolding handle_found
    handle_found-IsReported id state none s h = h
    handle_found-IsReported id state (some c) s h =
        set_states-IsReported id (kind.handle_driver_state c.conn_info state) s h

    call-IsReported :
        (c : Call) (s : Source) → Reports c → IsReported start s → IsReported start (call kind c s)
    unfolding on_driver_disconnected on_driver_state_changed init_client_if_needed
        set_all_clients_disabled_reason set_api_filter trace_completed emit_post_process_event
        report_capture_progress report_dump_progress drop_connection
    call-IsReported (connected info) s r h = on_driver_connected-IsReported info s h
    call-IsReported (disconnected id) s r h =
        update_trace_source_status-IsReported start
          (disconnect_found kind (find_client s.clients id) (drop_connection id s))
          (disconnect_found-IsChained kind (find_client s.clients id) (drop_connection id s)
            h.chained)
    call-IsReported (state_changed id state) s r h =
        let s' = init_client_if_needed kind id state s in
        handle_found-IsReported id state (find_client s'.clients id) s'
          (init_found-IsReported id state (find_connection s.pending_clients id) s h)
    call-IsReported (sets_state id state) s r h = set_state-IsReported id state s h
    call-IsReported (disables_system why) s r h = absurd r
    call-IsReported (disables_clients why) s r h = elim (Bool-cases (is_enabled why)) [
      | inl e ↦ rw e h
      | inr e ↦ rw e (
          update_trace_source_status-IsReported start (record s { client_disabled_reason = why })
            h.chained)
    ]
    call-IsReported (filters apis) s r h = record { current = h.current; chained = h.chained }
    call-IsReported (completes status path id) s r h = record {
      current = h.current;
      chained = h.chained;
    }
    call-IsReported (post_processes text progress) s r h = record {
      current = h.current;
      chained = h.chained;
    }
    call-IsReported (captures p) s r h = record { current = h.current; chained = h.chained }
    call-IsReported (dumps p) s r h = record { current = h.current; chained = h.chained }
    call-IsReported (processes progress) s r h = absurd r

    -- Over any sequence of handlers, of changes of state that clients make and of reports of
    -- progress, where every client that is created initializes, and none of the calls sets the reason
    -- for which the system is disabled or reports processing: if the status that was reported last
    -- is the current one and the events lead to it, each from the status to which the one before
    -- has led, the same holds after.
    pub run-IsReported :
        (cs : List Call) (s : Source)
        → All Reports cs
        → IsReported start s
        → IsReported start (run kind cs s)
    run-IsReported [] s r h = h
    run-IsReported (c ∷ cs) s r h =
        run-IsReported cs (call kind c s) r.1 (call-IsReported c s r.0 h)
