-- ===== src/Api/Client/Blocked.antt =====
-- `ClientManager` (source/api/client_manager.cpp) against the meaning of the blocklist's patterns.
use radeon_developer_panel.Common.{ap, ◌≡◌, ◌≢◌, true, [], some, ◌⊎◌, arith}
use radeon_developer_panel.Trace.Connections.Manager.{ConnectionInfo}
use radeon_developer_panel.Api.Blocklist.Text.{get_basename}
use radeon_developer_panel.Api.Blocklist.Entries.{ApiBlocklist, fold_case, contains, notify_blocked}
use radeon_developer_panel.Api.Blocklist.Blocking.{Blocks, contains_iff}
use radeon_developer_panel.Api.Client.Manager.{
  Client, ClientManager, convert, is_blocked, notify, should_client_be_ignored,
}

convert-process_id :
    (client : Client) (info : ConnectionInfo) → (convert client info).process_id ≡ info.process_id
unfolding convert
convert-process_id client info = ground arith

is_blocked-contains :
    (client : Client) (info : ConnectionInfo) (b : ApiBlocklist)
    → client.blocklist ≡ some b
    → contains client.platform b (convert client info).process_path ≡ true
    → is_blocked client (convert client info) ≡ true
unfolding is_blocked convert
is_blocked-contains client info b e c = rw e c

notify-some :
    (client : Client) (info : ConnectionInfo) (b : ApiBlocklist)
    → client.blocklist ≡ some b
    → notify client (convert client info)
      ≡ notify_blocked (convert client info).process_path info.process_id b
unfolding convert
notify-some client info b e = rw e (
    ap (λ p. notify_blocked (convert client info).process_path p b)
      (convert-process_id client info))

-- Where no other process is current: a client whose file name is meant by some pattern of the
-- blocklist is ignored, whatever the user's filter says, and the blocked callback, if one is set, is
-- called with its path and process.
pub should_client_be_ignored-Blocks :
    (client : Client) (info : ConnectionInfo) (m : ClientManager) (b : ApiBlocklist)
    → (m.current_process.process_id ≡ 0) ⊎ (m.current_process.process_id ≡ info.process_id)
    → client.blocklist ≡ some b
    → get_basename (convert client info).process_path ≢ []
    → Blocks client.platform
        (fold_case client.platform (get_basename (convert client info).process_path))
        b.patterns
    → should_client_be_ignored client info m
      ≡ (true, notify_blocked (convert client info).process_path info.process_id b)
unfolding should_client_be_ignored
should_client_be_ignored-Blocks client info m b h e n k =
    let c =
      is_blocked-contains client info b e
        ((contains_iff client.platform b (convert client info).process_path).1 (n, k)) in
    let d = notify-some client info b e in ground (arith, c, d)
