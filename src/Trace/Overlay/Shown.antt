-- ===== src/Trace/Overlay/Shown.antt =====
-- What the overlay of a client shows for a feature after any sequence of calls of `OverlayManager`
-- (source/trace/src/overlay_manager.cpp), while it is enabled.
use radeon_developer_panel.Common.{
  ℕ, ◌<◌, ◌≡◌, refl, ap, sym, subst, Bool, true, false, not, ◌||◌, List, [], ◌∷◌, Option, none,
  some, ◌==◌, if◌then◌else◌, Bytes, find_key,
}
use radeon_developer_panel.Trace.Source.Clients.{OverlayState}
use radeon_developer_panel.Trace.Overlay.Manager.{
  Item, feature_count, StartupState, OverlayManager, add_client, update_clocks_of_all, start_found,
  update_found, join_queue_threads, on_driver_connected, on_driver_state_changed,
  update_feature_state, update_device_clocks,
}
use radeon_developer_panel.Trace.Overlay.View.{queue_of, startup_of}
use radeon_developer_panel.Trace.Overlay.Asked.{
  Call, connected, state_changed, disconnected, updates, updates_clocks, call, run, ask, last_asked,
  IsNew, Numbered, line_of, text_or,
}
use radeon_developer_panel.Trace.Overlay.Held
use radeon_developer_panel.Trace.Overlay.Held.{
  insert_inactive-HasDistinctKeys, find_key-insert_inactive,
}
use radeon_developer_panel.Trace.Overlay.Clocks
use radeon_developer_panel.Trace.Overlay.Clocks.{update_clocks_of_all-IsShown}
use radeon_developer_panel.Trace.Overlay.Steps.{
  start_found-IsShown, add_client-IsShown, on_driver_disconnected-IsShown, update_found-IsShown,
}

module _ (format : Bytes → Bytes → Bytes) (clocks : Bytes) (id f : ℕ)
    (is_feature : f < feature_count) where
  abbrev Holds : Option OverlayState → Option StartupState → Option (List Item) → Type 0
  Holds = Held.Holds format clocks f is_feature

  abbrev IsShown : Option OverlayState → OverlayManager → Type 0
  IsShown = Clocks.IsShown format clocks id f is_feature

  if_not-true :
      (o : Option OverlayState) (b : Bool) (x y : OverlayManager)
      → b ≡ true
      → IsShown o y
      → IsShown o (if not b then x else y)
  if_not-true o b x y e h = subst (IsShown o) (sym (ap (λ c. if not c then x else y) e)) h

  test-IsShown :
      (o : Option OverlayState) (a b : Bool) (x y : OverlayManager)
      → b ≡ true
      → IsShown o x
      → IsShown o y
      → IsShown o (if not a || not b then x else y)
  test-IsShown o false b x y e h k = h
  test-IsShown o true b x y e h k = if_not-true o b x y e k

  call-IsShown :
      (device_init : ℕ) (c : Call) (o : Option OverlayState) (m : OverlayManager)
      → IsNew id f c o
      → IsShown o m
      → IsShown (ask id f c o) (call device_init c m)
  unfolding on_driver_connected on_driver_state_changed update_feature_state update_device_clocks
      join_queue_threads
  call-IsShown device_init (connected i) o m n h =
      if_not-true (ask id f (connected i) o) m.is_enabled (join_queue_threads m)
        (add_client i (join_queue_threads m)) h.0
        (add_client-IsShown format clocks id f is_feature o i (join_queue_threads m) n h)
  call-IsShown device_init (state_changed i state) o m n h =
      let found = find_key m.startup_states i in
      test-IsShown o (state == device_init) m.is_enabled m (start_found true i found m) h.0 h
        (start_found-IsShown format clocks id f is_feature o i found m refl h)
  call-IsShown device_init (disconnected i) o m n h =
      on_driver_disconnected-IsShown format clocks id f is_feature o i m h
  call-IsShown device_init (updates i g state) o m n h =
      let found = find_key m.startup_states i in
      if_not-true (ask id f (updates i g state) o) m.is_enabled m
        (update_found true i g state found m) h.0
        (update_found-IsShown format clocks id f is_feature o i g state found m refl h)
  call-IsShown device_init (updates_clocks info) o m n h =
      let m' = record m { device_clock_info = info } in
      if_not-true o m.is_enabled m (update_clocks_of_all true m.queues m') h.0
        (update_clocks_of_all-IsShown format clocks id f is_feature o m.queues m' h)

  run-IsShown :
      (device_init : ℕ) (cs : List Call) (o : Option OverlayState) (m : OverlayManager)
      → Numbered id f cs o
      → IsShown o m
      → IsShown (last_asked id f cs o) (run device_init cs m)
  run-IsShown device_init [] o m n h = h
  run-IsShown device_init (c ∷ cs) o m n h =
      run-IsShown device_init cs (ask id f c o) (call device_init c m) n.1
        (call-IsShown device_init c o m n.0 h)

  Holds-line_of :
      (o : Option OverlayState) (q : List Item)
      → Holds o none (some q)
      → line_of format clocks f q ≡ text_or format clocks f none o
  Holds-line_of none q h = cc (h.1)
  Holds-line_of (some state) q h = h

  -- While the overlay is enabled and the driver's utilities are there, whatever is called for this and
  -- other clients and features: once a client has started, the operations that were queued for it
  -- since it has connected draw, in the line of a feature, the text of the state that was last asked
  -- for since then, also while it was starting, and of the inactive state if none was. It is
  -- supposed that a client does not connect a second time before it disconnects.
  pub run-line_of :
      (device_init : ℕ) (cs : List Call) (m : OverlayManager) (q : List Item)
      → m.is_enabled ≡ true
      → startup_of id m ≡ none
      → queue_of id m ≡ none
      → Numbered id f cs none
      → startup_of id (run device_init cs m) ≡ none
      → queue_of id (run device_init cs m) ≡ some q
      → line_of format clocks f q ≡ text_or format clocks f none (last_asked id f cs none)
  run-line_of device_init cs m q e su qu n su' qu' =
      let o = last_asked id f cs none in
      let h = run-IsShown device_init cs none m n (e, (su, qu)) in
      Holds-line_of o q (
        subst (λ x. Holds o none x) qu'
          (subst (λ x. Holds o x (queue_of id (run device_init cs m))) su' h.1))
