-- ===== src/Trace/Source/Placement.antt =====
-- Where `BaseTraceSource` (source/trace/src/base_trace_source/base_trace_source.inl) keeps a connection:
-- among its pending clients, its clients or the unsupported ones, and in one place only.
use radeon_developer_panel.Common.{
  ℕ, ◌+◌, ◌-◌, ◌≤◌, ◌≡◌, refl, sym, ap, ◌∙◌, Bool, true, false, List, [], ◌∷◌, ◌++◌, Option, none,
  some, arith, ==_iff, Bool-cases, ◌==◌, inl, inr, if◌then◌else◌,
}
use radeon_developer_panel.Trace.Connections.Manager.{
  ClientConnection, ConnectionInfo, find_connection, new_connection,
}
use radeon_developer_panel.Trace.Connections.Invariant.{
  occurrences, occurrences-append_one, occurrences-erase_connection, find_connection-some,
}
use radeon_developer_panel.Trace.Status.{is_enabled}
use radeon_developer_panel.Trace.Source.Clients.{ClientState, ClientKind, BoundClient}
use radeon_developer_panel.Trace.Source.State.{
  Source, new_source, update_trace_source_status, update_feature_state, push_status_event,
}
use radeon_developer_panel.Trace.Source.Handlers.{
  find_client, erase_client, put_state, notify_first, on_client_state_change_event, set_state,
  set_states, post_states, add_connection, on_driver_connected, drop_connection, disconnect_found,
  on_driver_disconnected, new_client, bind_client, init_found, init_client_if_needed, handle_found,
  on_driver_state_changed, set_disabled_reason, set_all_clients_disabled_reason, set_api_filter,
  trace_completed, emit_post_process_event, report_capture_progress, report_dump_progress,
  report_processing,
}
use radeon_developer_panel.Trace.Source.Calls.{
  Call, connected, disconnected, state_changed, sets_state, disables_system, disables_clients,
  filters, completes, post_processes, captures, dumps, processes, call, run,
}

-- How many clients have the id.
abbrev pub client_count : List BoundClient → ℕ → ℕ
client_count [] id = 0
client_count (c ∷ cs) id =
    (if c.conn_info.umd_connection_id == id then 1 else 0) + client_count cs id

abbrev pub listed : Source → ℕ → ℕ
listed s id =
    occurrences s.pending_clients id
    + client_count s.clients id
    + occurrences s.unsupported_clients id

client_count-append_one :
    (cs : List BoundClient) (c : BoundClient) (id : ℕ)
    → client_count (cs ++ c ∷ []) id
      ≡ client_count cs id + (if c.conn_info.umd_connection_id == id then 1 else 0)
client_count-append_one [] c id = omega arith
client_count-append_one (x ∷ cs) c id = omega (arith, client_count-append_one cs c id)

client_count-erase_client :
    (cs : List BoundClient) (k id : ℕ)
    → client_count (erase_client cs k) id
      ≡ (if k == id then client_count cs id - 1 else client_count cs id)
unfolding erase_client
client_count-erase_client [] k id = ground arith
client_count-erase_client (c ∷ cs) k id = ground (arith, client_count-erase_client cs k id)

client_count-put_state :
    (cs : List BoundClient) (k : ℕ) (state : ClientState) (id : ℕ)
    → client_count (put_state cs k state) id ≡ client_count cs id
unfolding put_state
client_count-put_state [] k state id = refl
client_count-put_state (c ∷ cs) k state id = ground (arith, client_count-put_state cs k state id)

listed-notify_first :
    (cs : List BoundClient) (state : ClientState) (s : Source) (id : ℕ)
    → listed (notify_first cs state s) id ≡ listed s id
unfolding notify_first update_feature_state update_trace_source_status push_status_event
listed-notify_first [] state s id = refl
listed-notify_first (c ∷ cs) state s id = refl

listed-set_state :
    (k : ℕ) (state : ClientState) (s : Source) (id : ℕ)
    → listed (set_state k state s) id ≡ listed s id
unfolding set_state on_client_state_change_event
listed-set_state k state s id =
    let cs = put_state s.clients k state in
    omega (
      arith,
      listed-notify_first cs state (record s { clients = cs }) id,
      client_count-put_state s.clients k state id,
    )

listed-set_states :
    (k : ℕ) (states : List ClientState) (s : Source) (id : ℕ)
    → listed (set_states k states s) id ≡ listed s id
unfolding set_states
listed-set_states k [] s id = refl
listed-set_states k (state ∷ states) s id =
    listed-set_states k states (set_state k state s) id ∙ listed-set_state k state s id

listed-post_states :
    (states : List ClientState) (s : Source) (id : ℕ)
    → listed (post_states states s) id ≡ listed s id
unfolding post_states on_client_state_change_event
listed-post_states [] s id = refl
listed-post_states (state ∷ states) s id =
    listed-post_states states (on_client_state_change_event state s) id
    ∙ listed-notify_first s.clients state s id

listed-disconnect_found :
    (kind : ClientKind) (found : Option BoundClient) (s : Source) (id : ℕ)
    → listed (disconnect_found kind found s) id ≡ listed s id
unfolding disconnect_found
listed-disconnect_found kind none s id = refl
listed-disconnect_found kind (some c) s id = listed-post_states (kind.disconnect c.conn_info) s id

listed-on_driver_connected :
    (info : ConnectionInfo) (s : Source) (id : ℕ)
    → listed (on_driver_connected info s) id
      ≤ listed s id + (if info.umd_connection_id == id then 1 else 0)
unfolding on_driver_connected add_connection update_trace_source_status update_feature_state
    push_status_event
listed-on_driver_connected info s id =
    let c = new_connection info in
    ground (
      arith,
      occurrences-append_one s.pending_clients c id,
      occurrences-append_one s.unsupported_clients c id,
    )

listed-on_driver_disconnected :
    (kind : ClientKind) (k : ℕ) (s : Source) (id : ℕ)
    → listed (on_driver_disconnected kind k s) id ≡ listed (drop_connection k s) id
unfolding on_driver_disconnected update_trace_source_status push_status_event
listed-on_driver_disconnected kind k s id =
    listed-disconnect_found kind (find_client s.clients k) (drop_connection k s) id

listed-drop_connection :
    (k : ℕ) (s : Source) (id : ℕ)
    → listed (drop_connection k s) id ≤ (if k == id then listed s id - 1 else listed s id)
unfolding drop_connection
listed-drop_connection k s id = ground (
  arith,
  occurrences-erase_connection s.pending_clients k id,
  occurrences-erase_connection s.unsupported_clients k id,
  client_count-erase_client s.clients k id,
)

listed-init_found :
    (kind : ClientKind) (k state : ℕ) (o : Option ClientConnection) (s : Source) (id : ℕ)
    → find_connection s.pending_clients k ≡ o
    → listed (init_found kind k state o s) id ≤ listed s id
unfolding init_found bind_client update_trace_source_status update_feature_state push_status_event
listed-init_found kind k state none s id e = omega arith
listed-init_found kind k state (some c) s id e =
    let f = find_connection-some s.pending_clients k c e in
    ground (
      arith,
      f.0,
      f.1,
      occurrences-erase_connection s.pending_clients k id,
      client_count-append_one s.clients (new_client kind c) id,
    )

listed-handle_found :
    (kind : ClientKind) (k state : ℕ) (o : Option BoundClient) (s : Source) (id : ℕ)
    → listed (handle_found kind k state o s) id ≡ listed s id
unfolding handle_found
listed-handle_found kind k state none s id = refl
listed-handle_found kind k state (some c) s id =
    listed-set_states k (kind.handle_driver_state c.conn_info state) s id

-- Which ids have a connection, after a call.
abbrev pub after : Call → (ℕ → Bool) → ℕ → Bool
after (connected info) is_open i = if info.umd_connection_id == i then true else is_open i
after (disconnected id) is_open i = if id == i then false else is_open i
after _ is_open i = is_open i

abbrev pub after_all : List Call → (ℕ → Bool) → ℕ → Bool
after_all [] is_open = is_open
after_all (c ∷ cs) is_open = after_all cs (after c is_open)

abbrev pub IsNew : (ℕ → Bool) → Call → Type 0
IsNew is_open (connected info) = is_open info.umd_connection_id ≡ false
IsNew is_open _ = Unit

-- The driver gives a connection no id that another one has.
abbrev pub Numbered : (ℕ → Bool) → List Call → Type 0
Numbered is_open [] = Unit
Numbered is_open (c ∷ cs) = IsNew is_open c × Numbered (after c is_open) cs

abbrev IsPlaced : (ℕ → Bool) → Source → Type 0
IsPlaced is_open s = (i : ℕ) → listed s i ≤ (if is_open i then 1 else 0)

call-IsPlaced :
    (kind : ClientKind) (c : Call) (is_open : ℕ → Bool) (s : Source)
    → IsNew is_open c
    → IsPlaced is_open s
    → IsPlaced (after c is_open) (call kind c s)
unfolding on_driver_state_changed init_client_if_needed set_all_clients_disabled_reason
    set_api_filter trace_completed emit_post_process_event report_capture_progress
    report_dump_progress report_processing set_disabled_reason push_status_event
    update_trace_source_status
call-IsPlaced kind (connected info) is_open s n h i =
    let same : (info.umd_connection_id == i) ≡ true → is_open i ≡ false =
      λ e. ap is_open (sym ((==_iff info.umd_connection_id i).0 e)) ∙ n in
    ground (arith, h i, same, listed-on_driver_connected info s i)
call-IsPlaced kind (disconnected id) is_open s n h i =
    ground (arith, h i, listed-on_driver_disconnected kind id s i, listed-drop_connection id s i)
call-IsPlaced kind (state_changed id state) is_open s n h i =
    let s' = init_client_if_needed kind id state s in
    omega (
      arith,
      h i,
      listed-init_found kind id state (find_connection s.pending_clients id) s i refl,
      listed-handle_found kind id state (find_client s'.clients id) s' i,
    )
call-IsPlaced kind (sets_state id state) is_open s n h i =
    omega (arith, h i, listed-set_state id state s i)
call-IsPlaced kind (disables_system why) is_open s n h i = h i
call-IsPlaced kind (disables_clients why) is_open s n h i = elim (Bool-cases (is_enabled why)) [
  | inl e ↦ rw e (h i)
  | inr e ↦ rw e (h i)
]
call-IsPlaced kind (filters apis) is_open s n h i = h i
call-IsPlaced kind (completes status path id) is_open s n h i = h i
call-IsPlaced kind (post_processes text progress) is_open s n h i = h i
call-IsPlaced kind (captures p) is_open s n h i = h i
call-IsPlaced kind (dumps p) is_open s n h i = h i
call-IsPlaced kind (processes progress) is_open s n h i = h i

run-IsPlaced :
    (kind : ClientKind) (cs : List Call) (is_open : ℕ → Bool) (s : Source)
    → Numbered is_open cs
    → IsPlaced is_open s
    → IsPlaced (after_all cs is_open) (run kind cs s)
run-IsPlaced kind [] is_open s n h = h
run-IsPlaced kind (c ∷ cs) is_open s n h =
    run-IsPlaced kind cs (after c is_open) (call kind c s) n.1
      (call-IsPlaced kind c is_open s n.0 h)

-- After any sequence of calls on a new source in which no connection gets the id of another that is
-- still there: an id is listed in one place at most, pending, as a client or unsupported, and nowhere
-- once its connection is gone.
pub run-new_source-listed :
    (kind : ClientKind) (cs : List Call) (id : ℕ)
    → Numbered (λ i. false) cs
    → listed (run kind cs new_source) id ≤ (if after_all cs (λ i. false) id then 1 else 0)
run-new_source-listed kind cs id n =
    run-IsPlaced kind cs (λ i. false) new_source n (λ i. omega arith) id
