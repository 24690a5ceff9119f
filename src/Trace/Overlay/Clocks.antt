-- ===== src/Trace/Overlay/Clocks.antt =====
-- That the queue of a client of `OverlayManager` (source/trace/src/overlay_manager.cpp) goes on showing what was
-- asked for while the texts of the device clocks are queued.
use radeon_developer_panel.Common.{
  ℕ, ◌<◌, ◌≡◌, ap, sym, subst, ◌∙◌, true, false, List, [], ◌∷◌, Option, none, ◌==◌, ==_iff,
  Bool-cases, Option-cases, inl, inr, Bytes, is_some, find_key, has_key,
}
use radeon_developer_panel.Trace.Source.Clients.{OverlayState}
use radeon_developer_panel.Trace.Overlay.Manager.{
  Item, shows_clocks, feature_count, StartupState, OverlayManager, enqueue, update_device_clocks_of,
  update_clocks_of_all,
}
use radeon_developer_panel.Trace.Overlay.View.{
  queue_of, startup_of, queue_of-enqueue, startup_states-enqueue, update_device_clocks_of-enqueue,
  is_enabled-enqueue,
}
use radeon_developer_panel.Trace.Overlay.Held
use radeon_developer_panel.Trace.Overlay.Held.{
  insert_inactive-HasDistinctKeys, find_key-insert_inactive,
}

pub not_found :
    (qs : List (ℕ × List Item)) (i id : ℕ)
    → (i == id) ≡ true
    → has_key qs i ≡ false
    → find_key qs id ≡ none
not_found qs i id s b = elim (Option-cases (find_key qs i)) [
  | inl e ↦ ap (find_key qs) (sym ((==_iff i id).0 s)) ∙ e
  | inr (q, e) ↦ absurd (cc (sym (ap is_some e) ∙ b))
]

module _ (format : Bytes → Bytes → Bytes) (clocks : Bytes) (id f : ℕ)
    (is_feature : f < feature_count) where
  abbrev Holds : Option OverlayState → Option StartupState → Option (List Item) → Type 0
  Holds = Held.Holds format clocks f is_feature

  pub Holds-eq :
      (o : Option OverlayState) {su su' : Option StartupState} {qu qu' : Option (List Item)}
      → su ≡ su'
      → qu ≡ qu'
      → Holds o su' qu'
      → Holds o su qu
  Holds-eq o {su} {su'} {qu} {qu'} e k h =
      subst (λ x. Holds o x qu) (sym e) (subst (λ x. Holds o su' x) (sym k) h)

  -- The overlay is enabled, and holds what was last asked for.
  abbrev pub IsShown : Option OverlayState → OverlayManager → Type 0
  IsShown o m = (m.is_enabled ≡ true) × Holds o (startup_of id m) (queue_of id m)

  pub enqueue-clocks-IsShown :
      (o : Option OverlayState) (i : ℕ) (m : OverlayManager)
      → IsShown o m
      → IsShown o (enqueue i shows_clocks m)
  enqueue-clocks-IsShown o i m h =
      let e = queue_of-enqueue id i shows_clocks m in
      let su = ap (λ ss. find_key ss id) (startup_states-enqueue i shows_clocks m) in
      (
        is_enabled-enqueue i shows_clocks m ∙ h.0,
        elim (Bool-cases (i == id)) [
          | inl s ↦
              Holds-eq o su (rw s at e) (
                Held.Holds-clocks format clocks f is_feature o (startup_of id m) (queue_of id m)
                  h.1)
          | inr s ↦ Holds-eq o su (rw s at e) h.1
        ],
      )

  pub update_device_clocks_of-IsShown :
      (o : Option OverlayState) (i : ℕ) (m : OverlayManager)
      → IsShown o m
      → IsShown o (update_device_clocks_of true i m)
  update_device_clocks_of-IsShown o i m h = elim (update_device_clocks_of-enqueue i m) [
    | inl e ↦ subst (IsShown o) (sym e) h
    | inr e ↦ subst (IsShown o) (sym e) (enqueue-clocks-IsShown o i m h)
  ]

  pub update_clocks_of_all-IsShown :
      (o : Option OverlayState) (qs : List (ℕ × List Item)) (m : OverlayManager)
      → IsShown o m
      → IsShown o (update_clocks_of_all true qs m)
  unfolding update_clocks_of_all
  update_clocks_of_all-IsShown o [] m h = h
  update_clocks_of_all-IsShown o ((i, q) ∷ qs) m h =
      update_clocks_of_all-IsShown o qs (update_device_clocks_of true i m)
        (update_device_clocks_of-IsShown o i m h)
