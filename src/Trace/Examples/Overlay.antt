-- ===== src/Trace/Examples/Overlay.antt =====
-- The theorem on source/trace/src/overlay_manager.cpp at a concrete input.
use radeon_developer_panel.Common.{
  ◌≡◌, refl, true, List, [], ◌∷◌, ◌++◌, some, none, Bytes, codes, arith,
}
use radeon_developer_panel.Trace.Source.Clients.{OverlayState}
use radeon_developer_panel.Trace.Overlay.Manager.{
  Item, OverlayManager, new_overlay_manager, shows, shows_clocks, on_driver_connected,
  on_driver_state_changed, on_driver_disconnected, update_feature_state, update_device_clocks,
}
use radeon_developer_panel.Trace.Overlay.Asked.{
  Call, connected, state_changed, disconnected, updates, updates_clocks, line_of, text_or,
}
use radeon_developer_panel.Trace.Overlay.Shown.{run-line_of}

abbrev with_colon : Bytes → Bytes → Bytes
with_colon name state = name ++ codes ": " ++ state

abbrev enabled_manager : OverlayManager
enabled_manager = record new_overlay_manager { is_enabled = true }

-- The driver's state 4 is the device's initialisation; the client 5 is asked for while it starts.
abbrev some_calls : List Call
some_calls =
    connected 5
    ∷ updates 5 1 OverlayState.busy
    ∷ connected 6
    ∷ state_changed 5 4
    ∷ updates 5 2 OverlayState.error
    ∷ updates_clocks ((codes "GPU", codes "Peak") ∷ [])
    ∷ updates 5 1 OverlayState.capturing
    ∷ disconnected 6
    ∷ []

abbrev some_queue : List Item
some_queue =
    shows 0 OverlayState.inactive
    ∷ shows 1 OverlayState.busy
    ∷ shows 2 OverlayState.inactive
    ∷ shows 3 OverlayState.inactive
    ∷ shows_clocks
    ∷ shows 2 OverlayState.error
    ∷ shows_clocks
    ∷ shows 1 OverlayState.capturing
    ∷ []

run-line_of_example :
    line_of with_colon (codes "clocks") 1 some_queue
    ≡ text_or with_colon (codes "clocks") 1 none (some OverlayState.capturing)
unfolding on_driver_connected on_driver_state_changed on_driver_disconnected update_feature_state
    update_device_clocks
run-line_of_example =
    run-line_of with_colon (codes "clocks") 5 1 (omega arith) 4 some_calls enabled_manager
      some_queue refl refl refl
      (λ e. refl, (tt, (λ e. absurd (cc e), (tt, (tt, (tt, (tt, (tt, tt)))))))) refl refl
