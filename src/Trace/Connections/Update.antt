-- ===== src/Trace/Connections/Update.antt =====
-- What the subscriber of `ClientConnectionManager`
-- (source/trace/src/client_connection_manager.cpp) is told of its connections.
use radeon_developer_panel.Common.{
  ℕ, ◌≡◌, refl, Bool, false, List, [], ◌∷◌, Option, none, some, arith,
}
use radeon_developer_panel.Trace.Connections.Manager.{
  ClientConnection, Manager, new_manager, set_enabled, on_driver_connected, on_driver_disconnected,
  find_connection, promote, promote_found, reach_post_device_init, on_driver_state_changed,
}
use radeon_developer_panel.Trace.Connections.Invariant.{Event, step}

-- What a subscriber that keeps the last connections it was told has.
abbrev pub hear : List ClientConnection → Option (List ClientConnection) → List ClientConnection
hear seen none = seen
hear seen (some cs) = cs

-- The manager and what its subscriber has, after the events.
abbrev pub watch :
    (post_device_init connecting : ℕ)
    → List Event
    → Manager × List ClientConnection
    → Manager × List ClientConnection
watch p c [] (m, seen) = (m, seen)
watch p c (e ∷ es) (m, seen) = watch p c es ((step p c e m).0, hear seen (step p c e m).1)

-- A list that the flag does not announce is the old one.
abbrev IsKept : Manager → Manager × Bool → Type 0
IsKept m (n, update) = update ≡ false → n.current_connections ≡ m.current_connections

promote_found-IsKept :
    (i : ℕ) (m : Manager) (o : Option ClientConnection) → IsKept m (promote_found i m o)
promote_found-IsKept i m none = λ _. refl
promote_found-IsKept i m (some c) = λ h. cc

promote-IsKept : (i : ℕ) (m : Manager) → IsKept m (promote i m)
unfolding promote
promote-IsKept i m = promote_found-IsKept i m (find_connection m.pending_connections i)

reach-IsKept :
    (i : ℕ) (m : Manager) (n : Manager × Bool) → IsKept m n → IsKept m (reach_post_device_init i n)
unfolding reach_post_device_init
reach-IsKept i m (n, update) h = ground (arith, h)

hear-state_changed :
    (p c i s : ℕ) (m : Manager)
    → hear m.current_connections (on_driver_state_changed p c i s m).1
      ≡ (on_driver_state_changed p c i s m).0.current_connections
unfolding on_driver_state_changed
hear-state_changed p c i s m = ground (
  arith,
  promote-IsKept i m,
  reach-IsKept i m (promote i m) (promote-IsKept i m),
  reach-IsKept i m (m, false) (λ _. refl),
)

hear-step :
    (p c : ℕ) (e : Event) (m : Manager)
    → hear m.current_connections (step p c e m).1 ≡ (step p c e m).0.current_connections
unfolding set_enabled on_driver_connected on_driver_disconnected
hear-step p c (Event.enabled b) m = refl
hear-step p c (Event.connected info) m = ground arith
hear-step p c (Event.disconnected i) m = refl
hear-step p c (Event.state_changed i s) m = hear-state_changed p c i s m

watch-current :
    (p c : ℕ) (es : List Event) (m : Manager) (seen : List ClientConnection)
    → seen ≡ m.current_connections
    → (watch p c es (m, seen)).1 ≡ (watch p c es (m, seen)).0.current_connections
watch-current p c [] m seen h = h
watch-current p c (e ∷ es) m seen h =
    watch-current p c es (step p c e m).0 (hear seen (step p c e m).1)
      (rw (h, hear-step p c e m) refl)

-- After any sequence of events from a new manager, the connections that the subscriber was last
-- told, or none if it was never told, are exactly the current ones.
pub watch-new_manager :
    (p c : ℕ) (es : List Event)
    → (watch p c es (new_manager, [])).1 ≡ (watch p c es (new_manager, [])).0.current_connections
watch-new_manager p c es = watch-current p c es new_manager [] refl
