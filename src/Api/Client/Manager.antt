-- ===== src/Api/Client/Manager.antt =====
-- `ClientManager` of source/api/client_manager.cpp: which clients of the router are let in. Each
-- handler holds the mutex, so it is one step. The router's `QueryPathByProcessId`, the user's filter and
-- the id of the running process are parameters.
use radeon_developer_panel.Common.{
  ℕ, Bool, true, false, not, ◌&&◌, List, [], ◌∷◌, Option, none, some, ◌==◌, insert_id, erase_id,
  if◌then◌else◌, Bytes, codes, take, ◌-◌,
}
use radeon_developer_panel.Trace.Api.{get_api_from_driver_description}
use radeon_developer_panel.Trace.Connections.Manager.{ConnectionInfo}
use radeon_developer_panel.Api.Data.{GpuApi, get_gpu_api}
use radeon_developer_panel.Api.Blocklist.Defaults.{Platform}
use radeon_developer_panel.Api.Blocklist.Entries.{
  ApiBlocklist, BlockedCall, contains, notify_blocked,
}

-- `RdpCaptureProcessInfo`; the path is what stands in front of the terminator.
pub record ProcessInfo : Type 0 where
  pub process_path : Bytes
  pub process_id : ℕ

-- What the manager is built with, and what it asks the system: the path of a process, if the query
-- gives one, and the id of the running process.
pub record Client : Type 0 where
  pub platform : Platform
  pub query_path : ℕ → Option Bytes
  pub current_pid : ℕ
  pub filter : Option (ProcessInfo → GpuApi → Bool)
  pub blocklist : Option ApiBlocklist

pub record ClientManager : Type 0 where
  pub current_process : ProcessInfo
  pub current_umd_connections : List ℕ

abbrev pub new_client_manager : ClientManager
new_client_manager = record {
  current_process = record { process_path = []; process_id = 0 };
  current_umd_connections = [];
}

-- `RDP_CAPTURE_PROCESS_PATH_SIZE`.
abbrev pub process_path_size : ℕ
process_path_size = 1024

unfoldable pub convert : Client → ConnectionInfo → ProcessInfo
convert client info = elim (client.query_path info.process_id) [
  | none ↦ record { process_path = codes "Unknown"; process_id = info.process_id }
  | some path ↦ record {
    process_path = take (process_path_size - 1) path;
    process_id = info.process_id;
  }
]

-- The assertion that the connection is the current process's is left to the caller.
unfoldable pub on_driver_connected : Client → ConnectionInfo → ClientManager → ClientManager
unfolding convert insert_id
on_driver_connected client info m = record {
  current_process =
      if m.current_process.process_id == 0 then convert client info else m.current_process;
  current_umd_connections = insert_id info.umd_connection_id m.current_umd_connections;
}

abbrev pub clear_process : ClientManager → List ℕ → ClientManager
clear_process m [] = new_client_manager
clear_process m (i ∷ is) = record m { current_umd_connections = i ∷ is }

unfoldable pub on_driver_disconnected : ℕ → ClientManager → ClientManager
unfolding erase_id
on_driver_disconnected id m = clear_process m (erase_id id m.current_umd_connections)

unfoldable pub is_blocked : Client → ProcessInfo → Bool
unfolding contains
is_blocked client process = elim client.blocklist [
  | none ↦ false
  | some b ↦ contains client.platform b process.process_path
]

-- The call of `NotifyBlocked`, after the mutex is released.
abbrev pub notify : Client → ProcessInfo → Option BlockedCall
notify client process = elim client.blocklist [
  | none ↦ none
  | some b ↦ notify_blocked process.process_path process.process_id b
]

-- Where the process is not blocked: the filter, or the running process if there is none.
unfoldable pub is_filtered : Client → ConnectionInfo → Bool
unfolding convert
is_filtered client info = elim client.filter [
  | none ↦ not (client.current_pid == info.process_id)
  | some filter ↦ not (
      filter (convert client info) (get_gpu_api (get_api_from_driver_description info.description)))
]

-- Whether the client is to be ignored, and the call of the blocked callback.
unfoldable pub should_client_be_ignored :
    Client → ConnectionInfo → ClientManager → Bool × Option BlockedCall
unfolding convert is_blocked is_filtered
should_client_be_ignored client info m =
    if not (m.current_process.process_id == 0)
      && not (m.current_process.process_id == info.process_id)
    then (true, none)
    else if is_blocked client (convert client info)
    then (true, notify client (convert client info))
    else (is_filtered client info, none)
