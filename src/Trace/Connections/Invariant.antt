-- ===== src/Trace/Connections/Invariant.antt =====
-- What holds of `ClientConnectionManager` (source/trace/src/client_connection_manager.cpp) after any
-- sequence of events: a connection is listed once.
use radeon_developer_panel.Common.{
  ℕ, ◌+◌, ◌-◌, ◌≤◌, ◌≡◌, Bool, false, List, [], ◌∷◌, ◌++◌, Option, none, some, arith, ◌==◌,
  if◌then◌else◌, refl,
}
use radeon_developer_panel.Trace.Connections.Manager.{
  ClientConnection, ConnectionInfo, Manager, new_manager, new_connection, find_connection,
  erase_connection, mark_connection, found, has_existing_connection, set_enabled,
  on_driver_connected, on_driver_disconnected, promote, promote_found, reach_post_device_init,
  on_driver_state_changed,
}

-- How many connections of the list have the id.
abbrev pub occurrences : List ClientConnection → ℕ → ℕ
occurrences [] id = 0
occurrences (c ∷ cs) id = (if c.umd_connection_id == id then 1 else 0) + occurrences cs id

abbrev pub listed : Manager → ℕ → ℕ
listed m id = occurrences m.pending_connections id + occurrences m.current_connections id

pub data Event : Type 0 where
  enabled : Bool → Event
  connected : ConnectionInfo → Event
  disconnected : ℕ → Event
  state_changed : ℕ → ℕ → Event

abbrev pub step :
    (post_device_init connecting : ℕ) → Event → Manager → Manager × Option (List ClientConnection)
step p c (Event.enabled b) m = (set_enabled b m, none)
step p c (Event.connected info) m = (on_driver_connected info m, none)
step p c (Event.disconnected id) m = on_driver_disconnected id m
step p c (Event.state_changed id state) m = on_driver_state_changed p c id state m

abbrev pub run : (post_device_init connecting : ℕ) → List Event → Manager → Manager
run p c [] m = m
run p c (e ∷ es) m = run p c es (step p c e m).0

pub occurrences-append_one :
    (cs : List ClientConnection) (c : ClientConnection) (id : ℕ)
    → occurrences (cs ++ c ∷ []) id
      ≡ occurrences cs id + (if c.umd_connection_id == id then 1 else 0)
occurrences-append_one [] c id = omega arith
occurrences-append_one (x ∷ cs) c id = omega (arith, occurrences-append_one cs c id)

-- Only a connection that is not found has no occurrence.
pub find_connection-occurrences :
    (cs : List ClientConnection) (id : ℕ)
    → found (find_connection cs id) ≡ false
    → occurrences cs id ≡ 0
unfolding find_connection
find_connection-occurrences [] id h = refl
find_connection-occurrences (x ∷ cs) id h = ground (arith, find_connection-occurrences cs id)

pub find_connection-some :
    (cs : List ClientConnection) (id : ℕ) (c : ClientConnection)
    → find_connection cs id ≡ some c
    → (c.umd_connection_id ≡ id) × (1 ≤ occurrences cs id)
unfolding find_connection
find_connection-some [] id c h = cc
find_connection-some (x ∷ cs) id c h = ground (arith, find_connection-some cs id c)

-- `erase` takes one occurrence of its id away, if there is one, and no other.
pub occurrences-erase_connection :
    (cs : List ClientConnection) (id i : ℕ)
    → occurrences (erase_connection cs id) i
      ≡ (if id == i then occurrences cs i - 1 else occurrences cs i)
unfolding erase_connection
occurrences-erase_connection [] id i = ground arith
occurrences-erase_connection (x ∷ cs) id i = ground (arith, occurrences-erase_connection cs id i)

pub occurrences-mark_connection :
    (cs : List ClientConnection) (id i : ℕ)
    → occurrences (mark_connection cs id) i ≡ occurrences cs i
unfolding mark_connection
occurrences-mark_connection [] id i = refl
occurrences-mark_connection (x ∷ cs) id i = ground (arith, occurrences-mark_connection cs id i)

-- A manager lists every connection at most once, pending or current.
abbrev pub IsOnce : Manager → Type 0
IsOnce m = (id : ℕ) → listed m id ≤ 1

on_driver_connected-IsOnce :
    (info : ConnectionInfo) (m : Manager) → IsOnce m → IsOnce (on_driver_connected info m)
unfolding on_driver_connected has_existing_connection
on_driver_connected-IsOnce info m h id = ground (
  arith,
  h id,
  h info.umd_connection_id,
  occurrences-append_one m.pending_connections (new_connection info) id,
  find_connection-occurrences m.pending_connections info.umd_connection_id,
  find_connection-occurrences m.current_connections info.umd_connection_id,
)

pub listed-on_driver_disconnected :
    (i id : ℕ) (m : Manager)
    → IsOnce m
    → listed (on_driver_disconnected i m).0 id ≡ (if i == id then 0 else listed m id)
unfolding on_driver_disconnected
listed-on_driver_disconnected i id m h = ground (
  arith,
  h id,
  occurrences-erase_connection m.pending_connections i id,
  occurrences-erase_connection m.current_connections i id,
)

listed-promote_found :
    (i id : ℕ) (m : Manager) (o : Option ClientConnection)
    → find_connection m.pending_connections i ≡ o
    → listed (promote_found i m o).0 id ≡ listed m id
listed-promote_found i id m none e = refl
listed-promote_found i id m (some c) e = ground (
  arith,
  (find_connection-some m.pending_connections i c e).0,
  (find_connection-some m.pending_connections i c e).1,
  occurrences-erase_connection m.pending_connections i id,
  occurrences-append_one m.current_connections c id,
)

pub listed-promote : (i id : ℕ) (m : Manager) → listed (promote i m).0 id ≡ listed m id
unfolding promote
listed-promote i id m = listed-promote_found i id m (find_connection m.pending_connections i) refl

pub listed-reach_post_device_init :
    (i id : ℕ) (m : Manager × Bool) → listed (reach_post_device_init i m).0 id ≡ listed m.0 id
unfolding reach_post_device_init
listed-reach_post_device_init i id m =
    ground (arith, occurrences-mark_connection m.0.current_connections i id)

pub listed-on_driver_state_changed :
    (p c i s id : ℕ) (m : Manager) → listed (on_driver_state_changed p c i s m).0 id ≡ listed m id
unfolding on_driver_state_changed
listed-on_driver_state_changed p c i s id m = ground (
  arith,
  listed-promote i id m,
  listed-reach_post_device_init i id (promote i m),
  listed-reach_post_device_init i id (m, false),
)

step-IsOnce : (p c : ℕ) (e : Event) (m : Manager) → IsOnce m → IsOnce (step p c e m).0
unfolding set_enabled
step-IsOnce p c (Event.enabled b) m h = h
step-IsOnce p c (Event.connected info) m h = on_driver_connected-IsOnce info m h
step-IsOnce p c (Event.disconnected i) m h =
    λ id. ground (arith, h id, listed-on_driver_disconnected i id m h)
step-IsOnce p c (Event.state_changed i s) m h =
    λ id. omega (arith, h id, listed-on_driver_state_changed p c i s id m)

pub run-IsOnce : (p c : ℕ) (es : List Event) (m : Manager) → IsOnce m → IsOnce (run p c es m)
run-IsOnce p c [] m h = h
run-IsOnce p c (e ∷ es) m h = run-IsOnce p c es (step p c e m).0 (step-IsOnce p c e m h)

-- After any sequence of events, a connection id is listed at most once, be it pending or current.
pub run-new_manager-IsOnce : (p c : ℕ) (es : List Event) → IsOnce (run p c es new_manager)
run-new_manager-IsOnce p c es = run-IsOnce p c es new_manager (λ id. omega arith)

-- After any sequence of events that ends in the disconnection of an id, the id is neither pending
-- nor current.
pub run-disconnected :
    (p c : ℕ) (es : List Event) (id : ℕ)
    → listed (step p c (Event.disconnected id) (run p c es new_manager)).0 id ≡ 0
run-disconnected p c es id = ground (
  arith,
  listed-on_driver_disconnected id id (run p c es new_manager) (run-new_manager-IsOnce p c es),
)
