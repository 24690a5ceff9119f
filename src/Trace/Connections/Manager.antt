-- ===== src/Trace/Connections/Manager.antt =====
-- `ClientConnectionManager` of source/trace/src/client_connection_manager.cpp. Each handler holds the
-- connection mutex, so it is one step; it returns the state and the connections of the call of
-- `UpdateClientConnections`, if it makes one. `DD_DRIVER_STATE` belongs to the driver's headers: a
-- number, with the two states that the code names as parameters.
use radeon_developer_panel.Common.{
  ℕ, Bool, true, false, List, [], ◌∷◌, ◌++◌, Option, none, some, ◌==◌, if◌then◌else◌, Bytes,
}
use radeon_developer_panel.Trace.Api.{Api, get_api_from_driver_description}

-- `ClientConnection` of source/trace/inc/client_connections.h.
pub record ClientConnection : Type 0 where
  pub api : Api
  pub umd_connection_id : ℕ
  pub client_pid : ℕ
  pub client_name : Bytes
  pub has_reached_post_device_init : Bool

-- What the handlers read of `DDConnectionInfo`.
pub record ConnectionInfo : Type 0 where
  pub description : Option Bytes
  pub umd_connection_id : ℕ
  pub process_id : ℕ
  pub process_name : Bytes

pub record Manager : Type 0 where
  pub is_enabled : Bool
  pub pending_connections : List ClientConnection
  pub current_connections : List ClientConnection

abbrev pub new_manager : Manager
new_manager = record { is_enabled = false; pending_connections = []; current_connections = [] }

-- `FindConnection`.
unfoldable pub find_connection : List ClientConnection → ℕ → Option ClientConnection
find_connection [] id = none
find_connection (c ∷ cs) id = if c.umd_connection_id == id then some c else find_connection cs id

-- `erase` at what `FindConnection` returns.
unfoldable pub erase_connection : List ClientConnection → ℕ → List ClientConnection
erase_connection [] id = []
erase_connection (c ∷ cs) id = if c.umd_connection_id == id then cs else c ∷ erase_connection cs id

-- `existing_connection->has_reached_post_device_init = true`.
unfoldable pub mark_connection : List ClientConnection → ℕ → List ClientConnection
mark_connection [] id = []
mark_connection (c ∷ cs) id =
    if c.umd_connection_id == id
    then record c { has_reached_post_device_init = true } ∷ cs
    else c ∷ mark_connection cs id

abbrev pub found : Option ClientConnection → Bool
found none = false
found (some c) = true

unfoldable pub has_existing_connection : Manager → ℕ → Bool
unfolding find_connection
has_existing_connection m id =
    if found (find_connection m.pending_connections id)
    then true
    else found (find_connection m.current_connections id)

-- The assertion that no connection is current is left to the caller.
unfoldable pub set_enabled : Bool → Manager → Manager
set_enabled enabled m = record m { is_enabled = enabled }

-- What `OnDriverConnected` adds.
abbrev pub new_connection : ConnectionInfo → ClientConnection
new_connection info = record {
  api = get_api_from_driver_description info.description;
  umd_connection_id = info.umd_connection_id;
  client_pid = info.process_id;
  client_name = info.process_name;
  has_reached_post_device_init = false;
}

unfoldable pub on_driver_connected : ConnectionInfo → Manager → Manager
unfolding has_existing_connection
on_driver_connected info m =
    if m.is_enabled
    then if has_existing_connection m info.umd_connection_id
      then m
      else record m { pending_connections = m.pending_connections ++ new_connection info ∷ [] }
    else m

unfoldable pub on_driver_disconnected : ℕ → Manager → Manager × Option (List ClientConnection)
unfolding erase_connection
on_driver_disconnected id m =
    let current = erase_connection m.current_connections id in
    (
      record m {
        pending_connections = erase_connection m.pending_connections id;
        current_connections = current;
      },
      some current,
    )

abbrev pub promote_found : ℕ → Manager → Option ClientConnection → Manager × Bool
promote_found id m none = (m, false)
promote_found id m (some c) = (
  record m {
    current_connections = m.current_connections ++ c ∷ [];
    pending_connections = erase_connection m.pending_connections id;
  },
  true,
)

-- The first half of `OnDriverStateChanged`; the flag is `should_update_subscriber`.
unfoldable pub promote : ℕ → Manager → Manager × Bool
unfolding find_connection erase_connection
promote id m = promote_found id m (find_connection m.pending_connections id)

-- The second half.
unfoldable pub reach_post_device_init : ℕ → Manager × Bool → Manager × Bool
unfolding find_connection mark_connection
reach_post_device_init id (m, update) =
    if found (find_connection m.current_connections id)
    then (record m { current_connections = mark_connection m.current_connections id }, true)
    else (m, update)

abbrev pub report : Manager × Bool → Manager × Option (List ClientConnection)
report (m, update) = (m, if update then some m.current_connections else none)

-- `post_device_init` is `DD_DRIVER_STATE_POSTDEVICEINIT`, `connecting` what the subscriber's
-- `GetConnectingDriverState` returns.
unfoldable pub on_driver_state_changed :
    (post_device_init connecting : ℕ) → ℕ → ℕ → Manager → Manager × Option (List ClientConnection)
unfolding promote reach_post_device_init
on_driver_state_changed post_device_init connecting id state m =
    let first = if state == connecting then promote id m else (m, false) in
    let second = if state == post_device_init then reach_post_device_init id first else first in
    report second
