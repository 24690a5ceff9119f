-- ===== src/Api/Examples/Clients.antt =====
-- The theorems on source/api/client_manager.cpp at concrete inputs.
use radeon_developer_panel.Common.{◌≡◌, true, List, [], ◌∷◌, none, some, codes, All, arith}
use radeon_developer_panel.Trace.Connections.Manager.{ConnectionInfo}
use radeon_developer_panel.Api.Blocklist.Defaults.{win32}
use radeon_developer_panel.Api.Blocklist.Entries.{ApiBlocklist}
use radeon_developer_panel.Api.Client.Manager.{Client}
use radeon_developer_panel.Api.Client.Single.{
  Event, arrived, left, serve_all, new_system, serve_all-process_id,
}

-- A client of process 7, and one of process 8.
abbrev pub first_info : ConnectionInfo
first_info = record {
  description = some (codes "AMD Vulkan driver");
  umd_connection_id = 1;
  process_id = 7;
  process_name = codes "game";
}

abbrev second_info : ConnectionInfo
second_info = record first_info { umd_connection_id = 2; process_id = 8 }

-- Every process is let in, and the router knows every path.
abbrev pub open_client : Client
open_client = record {
  platform = win32;
  query_path = λ pid. some (codes "C:/game.exe");
  current_pid = 99;
  filter = some (λ info api. true);
  blocklist = none;
}

abbrev pub some_events : List Event
some_events = arrived first_info ∷ arrived second_info ∷ left 1 ∷ arrived second_info ∷ []

serve_all-process_id_example :
    All
      (λ o. o.1 ≡ (serve_all open_client some_events new_system).0.current_process.process_id)
      (serve_all open_client some_events new_system).1
serve_all-process_id_example = serve_all-process_id open_client some_events (ground arith)

-- The user's filter lets every process in, and the blocklist has the pattern of the path.
abbrev blocking_list : ApiBlocklist
blocking_list = record {
  patterns = codes "other" ∷ codes "g*[l-n]e.exe" ∷ [];
  blocked_callback = some 5;
  blocked_user_data = 6;
}

abbrev blocking_client : Client
blocking_client = record open_client { blocklist = some blocking_list }
