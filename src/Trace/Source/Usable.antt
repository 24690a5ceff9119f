-- ===== src/Trace/Source/Usable.antt =====
-- The connections that `BuildCurrentStatus` (source/trace/src/base_trace_source/base_trace_source.inl)
-- puts into a status.
use radeon_developer_panel.Common.{
  ℕ, ◌≡◌, refl, ap, ◌∙◌, Bool, true, false, ◌&&◌, ◌||◌, List, [], ◌∷◌, ◌++◌, Option, none, some,
  arith, ==_iff, ◌==◌,
}
use radeon_developer_panel.Trace.Api.{Api}
use radeon_developer_panel.Trace.Connections.Manager.{ClientConnection}
use radeon_developer_panel.Trace.Status.{
  Stage, Status, new_status, change_stage, enter_stage, reset_bytes,
}
use radeon_developer_panel.Trace.Source.Clients.{BoundClient}
use radeon_developer_panel.Trace.Source.Built.{fill_disabled_reason_lem}
use radeon_developer_panel.Trace.Source.State.{
  Source, get_trace_source_stage, is_usable, has_connection, insert_connection, usable_connections,
  build_current_status, process_connection, put_process, fill_process_info,
  fill_current_connections, fill_abort_supported,
}

-- A client with the id can be used.
abbrev pub has_usable : ℕ → List BoundClient → Bool
has_usable id [] = false
has_usable id (c ∷ cs) =
    is_usable c.state && (c.conn_info.umd_connection_id == id) || has_usable id cs

has_connection-append_one :
    (id i : ℕ) (api : Api) (cs : List (ℕ × Api))
    → has_connection id (cs ++ (i, api) ∷ []) ≡ (has_connection id cs || i == id)
has_connection-append_one id i api [] = ground arith
has_connection-append_one id i api ((j, a) ∷ cs) =
    ground (arith, has_connection-append_one id i api cs)

same_id :
    (id i : ℕ) (cs : List (ℕ × Api)) → (i == id) ≡ true → has_connection i cs ≡ has_connection id cs
same_id id i cs e = ap (λ j. has_connection j cs) ((==_iff i id).0 e)

has_connection-insert_connection :
    (id i : ℕ) (api : Api) (cs : List (ℕ × Api))
    → has_connection id (insert_connection i api cs) ≡ (has_connection id cs || i == id)
unfolding insert_connection
has_connection-insert_connection id i api cs =
    ground (arith, has_connection-append_one id i api cs, same_id id i cs)

has_connection-usable_connections :
    (id : ℕ) (cs : List BoundClient) (connections : List (ℕ × Api))
    → has_connection id (usable_connections cs connections)
      ≡ (has_connection id connections || has_usable id cs)
unfolding usable_connections
has_connection-usable_connections id [] connections = ground arith
has_connection-usable_connections id (c ∷ cs) connections =
    let i = c.conn_info.umd_connection_id in
    let next = insert_connection i c.conn_info.api connections in
    ground (
      arith,
      has_connection-insert_connection id i c.conn_info.api connections,
      has_connection-usable_connections id cs connections,
      has_connection-usable_connections id cs next,
    )

change_stage-connections :
    (stage : Stage) (status : Status)
    → (change_stage stage status).current_connections ≡ status.current_connections
unfolding change_stage enter_stage reset_bytes
change_stage-connections stage status = ground arith

put_process-connections :
    (found : Option ClientConnection) (status : Status)
    → (put_process found status).current_connections ≡ status.current_connections
put_process-connections none status = refl
put_process-connections (some c) status = refl

-- The connections of a status are those of the clients that can be used: that are not done, disabled
-- or in error.
pub has_connection-build_current_status :
    (s : Source) (id : ℕ)
    → has_connection id (build_current_status s).current_connections ≡ has_usable id s.clients
unfolding build_current_status fill_process_info fill_current_connections fill_abort_supported
has_connection-build_current_status s id =
    let status = change_stage (get_trace_source_stage s) new_status in
    let found = process_connection s.clients s.unsupported_clients s.pending_clients in
    let e =
      ap (λ (r : Status). r.current_connections)
        (fill_disabled_reason_lem s (put_process found status))
      ∙ (put_process-connections found status
          ∙ change_stage-connections (get_trace_source_stage s) new_status) in
    ap (λ cs. has_connection id (usable_connections s.clients cs)) e
    ∙ has_connection-usable_connections id s.clients []
