-- ===== src/Trace/Overlay/Steps.antt =====
-- That starting, connecting, disconnecting and updating a client of `OverlayManager`
-- (source/trace/src/overlay_manager.cpp) keep what its overlay shows.
use radeon_developer_panel.Common.{
  ℕ, ◌<◌, ◌≡◌, refl, ap, sym, subst, ◌∙◌, Bool, true, false, ◌&&◌, List, [], Option, none, some,
  ◌==◌, ==_iff, if◌then◌else◌, Bool-cases, inl, inr, Bytes, find_key, has_key, insert_key,
  erase_key, find_key-insert_key, find_key-assign_key, find_key-erase_key, value_or,
}
use radeon_developer_panel.Trace.Source.Clients.{OverlayState}
use radeon_developer_panel.Trace.Overlay.Manager.{
  Item, shows, feature_count, StartupState, OverlayManager, all_features, state_at, insert_inactive,
  add_client, update_feature_state_internal, flush, start_found, update_found,
  on_driver_disconnected,
}
use radeon_developer_panel.Trace.Overlay.View.{
  queue_of, startup_of, queue_of-enqueue, startup_states-enqueue,
  update_feature_state_internal-enqueue, queue_of-flush, startup_states-flush, is_enabled-enqueue,
  is_enabled-flush,
}
use radeon_developer_panel.Trace.Overlay.Asked.{replace_if}
use radeon_developer_panel.Trace.Overlay.Held
use radeon_developer_panel.Trace.Overlay.Held.{
  insert_inactive-HasDistinctKeys, find_key-insert_inactive,
}
use radeon_developer_panel.Trace.Overlay.Clocks
use radeon_developer_panel.Trace.Overlay.Clocks.{
  not_found, Holds-eq, update_device_clocks_of-IsShown, enqueue-clocks-IsShown,
}

module _ (format : Bytes → Bytes → Bytes) (clocks : Bytes) (id f : ℕ)
    (is_feature : f < feature_count) where
  abbrev Holds : Option OverlayState → Option StartupState → Option (List Item) → Type 0
  Holds = Held.Holds format clocks f is_feature

  abbrev IsShown : Option OverlayState → OverlayManager → Type 0
  IsShown = Clocks.IsShown format clocks id f is_feature

  -- The state is taken out and drawn.
  abbrev started : ℕ → StartupState → OverlayManager → OverlayManager
  started i ss m = flush true i ss (record m { startup_states = erase_key i m.startup_states })

  started-IsShown :
      (o : Option OverlayState) (i : ℕ) (ss : StartupState) (m : OverlayManager)
      → find_key m.startup_states i ≡ some ss
      → IsShown o m
      → IsShown o (started i ss m)
  started-IsShown o i ss m e h =
      let m' = record m { startup_states = erase_key i m.startup_states } in
      let su =
        ap (λ x. find_key x id) (startup_states-flush i ss m')
        ∙ find_key-erase_key i id m.startup_states in
      let qu = queue_of-flush id i ss m' in
      (
        is_enabled-flush i ss m' ∙ h.0,
        elim (Bool-cases (i == id)) [
          | inl s ↦
              let e' : startup_of id m ≡ some ss =
                ap (find_key m.startup_states) (sym ((==_iff i id).0 s)) ∙ e in
              Holds-eq format clocks id f is_feature o (rw s at su) (rw s at qu) (
                Held.Holds-items format clocks f is_feature o ss (queue_of id m)
                  (subst (λ x. Holds o x (queue_of id m)) e' h.1))
          | inr s ↦ Holds-eq format clocks id f is_feature o (rw s at su) (rw s at qu) h.1
        ],
      )

  pub start_found-IsShown :
      (o : Option OverlayState) (i : ℕ) (found : Option StartupState) (m : OverlayManager)
      → find_key m.startup_states i ≡ found
      → IsShown o m
      → IsShown o (start_found true i found m)
  unfolding start_found
  start_found-IsShown o i none m e h = h
  start_found-IsShown o i (some ss) m e h =
      update_device_clocks_of-IsShown format clocks id f is_feature o i (started i ss m)
        (started-IsShown o i ss m e h)

  pub add_client-IsShown :
      (o : Option OverlayState) (i : ℕ) (m : OverlayManager)
      → ((i == id) ≡ true → o ≡ none)
      → IsShown o m
      → IsShown (if i == id then some OverlayState.inactive else o) (add_client i m)
  unfolding add_client
  add_client-IsShown o i m n h =
      let states = insert_key i [] m.startup_states in
      let ss = insert_inactive all_features (state_at (find_key states i)) in
      let su = find_key-assign_key i id ss states in
      let su' = find_key-insert_key i id [] m.startup_states in
      let qu = find_key-insert_key i id [] m.queues in
      (
        h.0,
        elim (Bool-cases (i == id)) [
          | inl s ↦
              let none' = subst (λ x. Holds x (startup_of id m) (queue_of id m)) (n s) h.1 in
              let first : find_key states i ≡ some [] =
                ap (find_key states) ((==_iff i id).0 s)
                ∙ rw s at su'
                ∙ ap (λ x. some (value_or [] x)) none'.0 in
              let ss' : ss ≡ insert_inactive all_features [] =
                ap (λ x. insert_inactive all_features (state_at x)) first in
              rw s (
                Holds-eq format clocks id f is_feature (some OverlayState.inactive)
                  (rw s at su ∙ ap some ss') (rw s at qu ∙ ap (λ x. some (value_or [] x)) none'.1)
                  (insert_inactive-HasDistinctKeys, find_key-insert_inactive f is_feature))
          | inr s ↦
              rw s (
                Holds-eq format clocks id f is_feature o (rw s at su ∙ rw s at su') (rw s at qu)
                  h.1)
        ],
      )

  pub on_driver_disconnected-IsShown :
      (o : Option OverlayState) (i : ℕ) (m : OverlayManager)
      → IsShown o m
      → IsShown (if i == id then none else o) (on_driver_disconnected i m)
  unfolding on_driver_disconnected
  on_driver_disconnected-IsShown o i m h =
      let su = find_key-erase_key i id m.startup_states in
      let qu = find_key-erase_key i id m.queues in
      elim (Bool-cases (has_key m.queues i)) [
        | inl b ↦ rw b (
          h.0,
          elim (Bool-cases (i == id)) [
            | inl s ↦ rw s (rw s at su, rw s at qu)
            | inr s ↦ rw s (Holds-eq format clocks id f is_feature o (rw s at su) (rw s at qu) h.1)
          ],
        )
        | inr b ↦ rw b (
          h.0,
          elim (Bool-cases (i == id)) [
            | inl s ↦ rw s (rw s at su, not_found m.queues i id s b)
            | inr s ↦ rw s (Holds-eq format clocks id f is_feature o (rw s at su) refl h.1)
          ],
        )
      ]

  replace_if-false :
      (b : Bool) (state : OverlayState) (o : Option OverlayState)
      → b ≡ false
      → replace_if b state o ≡ o
  replace_if-false b state none e = refl
  replace_if-false b state (some old) e = rw e

  pub update_found-IsShown :
      (o : Option OverlayState) (i g : ℕ) (state : OverlayState) (found : Option StartupState)
      (m : OverlayManager)
      → find_key m.startup_states i ≡ found
      → IsShown o m
      → IsShown (replace_if (i == id && g == f) state o) (update_found true i g state found m)
  unfolding update_found
  update_found-IsShown o i g state none m e h =
      let m' = update_feature_state_internal true i g state m in
      let k = update_feature_state_internal-enqueue i g state m in
      let qu = ap (queue_of id) k ∙ queue_of-enqueue id i (shows g state) m in
      let su =
        ap (λ (x : OverlayManager). startup_of id x) k
        ∙ ap (λ ss. find_key ss id) (startup_states-enqueue i (shows g state) m) in
      (
        ap (λ (x : OverlayManager). x.is_enabled) k ∙ is_enabled-enqueue i (shows g state) m ∙ h.0,
        elim (Bool-cases (i == id)) [
          | inl s ↦
              let e' : startup_of id m ≡ none =
                ap (find_key m.startup_states) (sym ((==_iff i id).0 s)) ∙ e in
              rw s (
                Holds-eq format clocks id f is_feature (replace_if (g == f) state o) (su ∙ e')
                  (rw s at qu)
                  (Held.Holds-shows format clocks f is_feature o g state (queue_of id m)
                    (subst (λ x. Holds o x (queue_of id m)) e' h.1)))
          | inr s ↦
              subst (λ x. Holds x (startup_of id m') (queue_of id m'))
                (sym (replace_if-false (i == id && g == f) state o (rw s refl)))
                (Holds-eq format clocks id f is_feature o su (rw s at qu) h.1)
        ],
      )
  update_found-IsShown o i g state (some ss) m e h =
      let su =
        find_key-assign_key i id (Held.put_startup format clocks f is_feature g state ss)
          m.startup_states in
      (
        h.0,
        elim (Bool-cases (i == id)) [
          | inl s ↦
              let e' : startup_of id m ≡ some ss =
                ap (find_key m.startup_states) (sym ((==_iff i id).0 s)) ∙ e in
              rw s (
                Holds-eq format clocks id f is_feature (replace_if (g == f) state o) (rw s at su)
                  refl
                  (Held.Holds-startup format clocks f is_feature o g state ss (queue_of id m)
                    (subst (λ x. Holds o x (queue_of id m)) e' h.1)))
          | inr s ↦
              subst
                (λ x.
                  Holds x (startup_of id (update_found true i g state (some ss) m)) (queue_of id m))
                (sym (replace_if-false (i == id && g == f) state o (rw s refl)))
                (Holds-eq format clocks id f is_feature o (rw s at su) refl h.1)
        ],
      )
