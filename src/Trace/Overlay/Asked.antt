-- ===== src/Trace/Overlay/Asked.antt =====
-- What is asked of the overlay of a client in a sequence of calls of `OverlayManager`
-- (source/trace/src/overlay_manager.cpp), and what the line of a feature shows after the operations of a
-- queue.
use mathlib.Core.List.{append_assoc, append-nil}
use radeon_developer_panel.Common.{
  ℕ, ◌<◌, ◌≡◌, refl, ap, sym, ◌∙◌, Bool, true, ◌&&◌, List, [], ◌∷◌, ◌++◌, Option, none, some, ◌==◌,
  ==_iff, if◌then◌else◌, Bool-cases, inl, inr, arith, Bytes, find_key, HasDistinctKeys,
}
use radeon_developer_panel.Trace.Source.Clients.{OverlayState}
use radeon_developer_panel.Trace.Overlay.Manager.{
  Item, shows, shows_clocks, feature_count, StartupState, OverlayManager, on_driver_connected,
  on_driver_state_changed, on_driver_disconnected, update_feature_state, update_device_clocks,
}
use radeon_developer_panel.Trace.Overlay.Lines.{
  get_name_for_feature, get_string_for_overlay_state, Lines, draw_clocks, draw, draw_all,
  draw_all-append_one,
}
use radeon_developer_panel.Trace.Overlay.View.{items_of}

pub data Call : Type 0 where
  connected : ℕ → Call
  state_changed : ℕ → ℕ → Call
  disconnected : ℕ → Call
  updates : ℕ → ℕ → OverlayState → Call
  updates_clocks : List (Bytes × Bytes) → Call

abbrev pub call : (device_init : ℕ) → Call → OverlayManager → OverlayManager
call device_init (connected id) m = on_driver_connected id m
call device_init (state_changed id state) m = on_driver_state_changed true device_init id state m
call device_init (disconnected id) m = on_driver_disconnected id m
call device_init (updates id f state) m = update_feature_state true id f state m
call device_init (updates_clocks info) m = update_device_clocks true info m

abbrev pub run : (device_init : ℕ) → List Call → OverlayManager → OverlayManager
run device_init [] m = m
run device_init (c ∷ cs) m = run device_init cs (call device_init c m)

abbrev pub replace_if : Bool → OverlayState → Option OverlayState → Option OverlayState
replace_if b state none = none
replace_if b state (some old) = some (if b then state else old)

module _ (id f : ℕ) where
  -- What was last asked for, if the client is connected; at first the feature is inactive.
  abbrev pub ask : Call → Option OverlayState → Option OverlayState
  ask (connected i) o = if i == id then some OverlayState.inactive else o
  ask (disconnected i) o = if i == id then none else o
  ask (updates i g state) o = replace_if (i == id && g == f) state o
  ask (state_changed i state) o = o
  ask (updates_clocks info) o = o

  abbrev pub last_asked : List Call → Option OverlayState → Option OverlayState
  last_asked [] o = o
  last_asked (c ∷ cs) o = last_asked cs (ask c o)

  -- A client that connects is not connected yet.
  abbrev pub IsNew : Call → Option OverlayState → Type 0
  IsNew (connected i) o = (i == id) ≡ true → o ≡ none
  IsNew _ o = Unit

  abbrev pub Numbered : List Call → Option OverlayState → Type 0
  Numbered [] o = Unit
  Numbered (c ∷ cs) o = IsNew c o × Numbered cs (ask c o)

module _ (format : Bytes → Bytes → Bytes) (clocks : Bytes) (f : ℕ) where
  -- The text of the feature in a state.
  abbrev pub text_of : OverlayState → Bytes
  text_of state = format (get_name_for_feature f) (get_string_for_overlay_state state)

  -- The line of the feature after the operations of a queue.
  abbrev pub line_of : List Item → Option Bytes
  line_of queue = draw_all format clocks queue (λ i. none) f

  pub line_of-shows :
      (queue : List Item) (g : ℕ) (state : OverlayState)
      → line_of (queue ++ shows g state ∷ [])
        ≡ (if g == f then some (text_of state) else line_of queue)
  unfolding draw
  line_of-shows queue g state =
      let e =
        ap (λ (ls : Lines). ls f)
          (draw_all-append_one format clocks queue (shows g state) (λ i. none)) in
      elim (Bool-cases (g == f)) [
        | inl s ↦
            let name =
              ap (λ h. some (format (get_name_for_feature h) (get_string_for_overlay_state state)))
                ((==_iff g f).0 s) in
            e ∙ rw s name
        | inr s ↦ e ∙ rw s refl
      ]

  draw_clocks-feature :
      (text : Bytes) (lines : Lines) → f < feature_count → draw_clocks text lines f ≡ lines f
  draw_clocks-feature [] lines h = refl
  draw_clocks-feature (c ∷ text) lines h = ground arith

  pub line_of-shows_clocks :
      (queue : List Item) → f < feature_count → line_of (queue ++ shows_clocks ∷ []) ≡ line_of queue
  unfolding draw
  line_of-shows_clocks queue h =
      ap (λ (ls : Lines). ls f) (draw_all-append_one format clocks queue shows_clocks (λ i. none))
      ∙ draw_clocks-feature clocks (draw_all format clocks queue (λ i. none)) h

  abbrev pub text_or : Option Bytes → Option OverlayState → Option Bytes
  text_or t none = t
  text_or t (some state) = some (text_of state)

  pub line_of-items_of :
      (states : StartupState) (queue : List Item)
      → HasDistinctKeys states
      → line_of (queue ++ items_of states) ≡ text_or (line_of queue) (find_key states f)
  line_of-items_of [] queue h = ap line_of (append-nil queue)
  line_of-items_of ((g, state) ∷ states) queue h =
      let q = queue ++ shows g state ∷ [] in
      let e = ap line_of (sym (append_assoc queue (shows g state ∷ []) (items_of states))) in
      let ih = line_of-items_of states q h.1 in
      let l = line_of-shows queue g state in
      elim (Bool-cases (g == f)) [
        | inl s ↦
            let n : find_key states f ≡ none =
              ap (find_key states) (sym ((==_iff g f).0 s)) ∙ h.0 in
            e ∙ ih ∙ rw (s, n) (rw s at l)
        | inr s ↦ e ∙ ih ∙ rw s (ap (λ t. text_or t (find_key states f)) (rw s at l))
      ]
