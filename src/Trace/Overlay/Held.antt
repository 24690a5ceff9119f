-- ===== src/Trace/Overlay/Held.antt =====
-- What is held for a feature of a client by `OverlayManager` (source/trace/src/overlay_manager.cpp): in its
-- startup state, or by the operations of its queue.
use radeon_developer_panel.Common.{
  ℕ, ◌<◌, ◌≡◌, refl, ap, ◌∙◌, true, not, List, [], ◌∷◌, Option, none, some, ◌==◌, ==_iff,
  if◌then◌else◌, Bool-cases, inl, inr, arith, Bytes, find_key, has_key, insert_key, assign_key,
  find_key-insert_key, find_key-assign_key, HasDistinctKeys, insert_key-HasDistinctKeys,
  assign_key-HasDistinctKeys,
}
use radeon_developer_panel.Trace.Source.Clients.{OverlayState}
use radeon_developer_panel.Trace.Overlay.Manager.{
  Item, shows, shows_clocks, feature_count, StartupState, all_features, insert_inactive,
}
use radeon_developer_panel.Trace.Overlay.View.{append_to, items_of}
use radeon_developer_panel.Trace.Overlay.Asked.{
  replace_if, text_of, line_of, line_of-shows, line_of-shows_clocks, line_of-items_of, text_or,
}

pub insert_inactive-HasDistinctKeys : HasDistinctKeys (insert_inactive all_features [])
unfolding insert_inactive insert_key
insert_inactive-HasDistinctKeys = (refl, (refl, (refl, (refl, tt))))

pub find_key-insert_inactive :
    (f : ℕ)
    → f < feature_count
    → find_key (insert_inactive all_features []) f ≡ some OverlayState.inactive
unfolding insert_inactive insert_key
find_key-insert_inactive f h = ground arith

module _ (format : Bytes → Bytes → Bytes) (clocks : Bytes) (f : ℕ)
    (is_feature : f < feature_count) where
  -- A client that is starting keeps the state of the feature, and one that has started has a queue that
  -- draws it.
  abbrev pub Holds : Option OverlayState → Option StartupState → Option (List Item) → Type 0
  Holds none su qu = (su ≡ none) × (qu ≡ none)
  Holds (some state) su none = ⊥
  Holds (some state) none (some q) =
      line_of format clocks f q ≡ some (text_of format clocks f state)
  Holds (some state) (some ss) (some q) = HasDistinctKeys ss × (find_key ss f ≡ some state)

  pub Holds-clocks :
      (o : Option OverlayState) (su : Option StartupState) (qu : Option (List Item))
      → Holds o su qu
      → Holds o su (append_to (shows_clocks ∷ []) qu)
  Holds-clocks none su qu h = (h.0, ap (append_to (shows_clocks ∷ [])) h.1)
  Holds-clocks (some state) su none h = absurd h
  Holds-clocks (some state) none (some q) h = line_of-shows_clocks format clocks f q is_feature ∙ h
  Holds-clocks (some state) (some ss) (some q) h = h

  pub Holds-items :
      (o : Option OverlayState) (ss : StartupState) (qu : Option (List Item))
      → Holds o (some ss) qu
      → Holds o none (append_to (items_of ss) qu)
  Holds-items none ss qu h = cc (h.0)
  Holds-items (some state) ss none h = absurd h
  Holds-items (some state) ss (some q) h =
      line_of-items_of format clocks f ss q h.0
      ∙ ap (text_or format clocks f (line_of format clocks f q)) h.1

  pub Holds-shows :
      (o : Option OverlayState) (g : ℕ) (state : OverlayState) (qu : Option (List Item))
      → Holds o none qu
      → Holds (replace_if (g == f) state o) none (append_to (shows g state ∷ []) qu)
  Holds-shows none g state qu h = (refl, ap (append_to (shows g state ∷ [])) h.1)
  Holds-shows (some old) g state none h = absurd h
  Holds-shows (some old) g state (some q) h = elim (Bool-cases (g == f)) [
    | inl s ↦ rw s (rw s at (line_of-shows format clocks f q g state))
    | inr s ↦ rw s (rw s at (line_of-shows format clocks f q g state) ∙ h)
  ]

  abbrev pub put_startup : ℕ → OverlayState → StartupState → StartupState
  put_startup g state ss =
      if not (has_key ss g) then insert_key g state ss else assign_key g state ss

  find_key-put_startup :
      (g : ℕ) (state : OverlayState) (ss : StartupState)
      → find_key (put_startup g state ss) f ≡ (if g == f then some state else find_key ss f)
  find_key-put_startup g state ss =
      let same : (g == f) ≡ true → find_key ss g ≡ find_key ss f =
        λ s. ap (find_key ss) ((==_iff g f).0 s) in
      ground (arith, same, find_key-insert_key g f state ss, find_key-assign_key g f state ss)

  put_startup-HasDistinctKeys :
      (g : ℕ) (state : OverlayState) (ss : StartupState)
      → HasDistinctKeys ss
      → HasDistinctKeys (put_startup g state ss)
  put_startup-HasDistinctKeys g state ss h = elim (Bool-cases (has_key ss g)) [
    | inl s ↦ rw s (assign_key-HasDistinctKeys g state ss h)
    | inr s ↦ rw s (insert_key-HasDistinctKeys g state ss h)
  ]

  pub Holds-startup :
      (o : Option OverlayState) (g : ℕ) (state : OverlayState) (ss : StartupState)
      (qu : Option (List Item))
      → Holds o (some ss) qu
      → Holds (replace_if (g == f) state o) (some (put_startup g state ss)) qu
  Holds-startup none g state ss qu h = cc (h.0)
  Holds-startup (some old) g state ss none h = absurd h
  Holds-startup (some old) g state ss (some q) h = (
    put_startup-HasDistinctKeys g state ss h.0,
    ground (arith, find_key-put_startup g state ss, h.1),
  )
