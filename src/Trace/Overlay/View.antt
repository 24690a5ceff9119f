-- ===== src/Trace/Overlay/View.antt =====
-- What the operations of `OverlayManager` (source/trace/src/overlay_manager.cpp) do to the startup state and
-- the queue of one client, where the driver's utilities are there.
use mathlib.Core.List.{append_assoc, append-nil}
use radeon_developer_panel.Common.{
  ℕ, ◌≡◌, refl, ap, sym, ◌∙◌, true, false, not, ◌||◌, ◌⊎◌, List, [], ◌∷◌, ◌++◌, Option, none, some,
  ◌==◌, ==_iff, if◌then◌else◌, Bool-cases, inl, inr, is_some, find_key, has_key,
  find_key-assign_key,
}
use radeon_developer_panel.Trace.Source.Clients.{OverlayState}
use radeon_developer_panel.Trace.Overlay.Manager.{
  Item, shows, shows_clocks, StartupState, OverlayManager, enqueue_found, enqueue,
  update_feature_state_internal, update_device_clocks_of, flush,
}

abbrev pub append_to : List Item → Option (List Item) → Option (List Item)
append_to items none = none
append_to items (some queue) = some (queue ++ items)

abbrev pub queue_of : ℕ → OverlayManager → Option (List Item)
queue_of id m = find_key m.queues id

abbrev pub startup_of : ℕ → OverlayManager → Option StartupState
startup_of id m = find_key m.startup_states id

queue_of-enqueue_found :
    (id i : ℕ) (item : Item) (o : Option (List Item)) (m : OverlayManager)
    → find_key m.queues i ≡ o
    → queue_of id (enqueue_found i item o m)
      ≡ (if i == id then append_to (item ∷ []) (queue_of id m) else queue_of id m)
unfolding enqueue_found
queue_of-enqueue_found id i item none m e =
    let same : (i == id) ≡ true → find_key m.queues i ≡ find_key m.queues id =
      λ s. ap (find_key m.queues) ((==_iff i id).0 s) in
    elim (Bool-cases (i == id)) [
      | inl s ↦ let n : queue_of id m ≡ none = sym (same s) ∙ e in rw (s, n)
      | inr s ↦ rw s
    ]
queue_of-enqueue_found id i item (some q) m e =
    let same : (i == id) ≡ true → find_key m.queues i ≡ find_key m.queues id =
      λ s. ap (find_key m.queues) ((==_iff i id).0 s) in
    let f = find_key-assign_key i id (q ++ item ∷ []) m.queues in
    elim (Bool-cases (i == id)) [
      | inl s ↦ let n : queue_of id m ≡ some q = sym (same s) ∙ e in f ∙ rw (s, n) refl
      | inr s ↦ f ∙ rw s refl
    ]

pub queue_of-enqueue :
    (id i : ℕ) (item : Item) (m : OverlayManager)
    → queue_of id (enqueue i item m)
      ≡ (if i == id then append_to (item ∷ []) (queue_of id m) else queue_of id m)
unfolding enqueue
queue_of-enqueue id i item m = queue_of-enqueue_found id i item (find_key m.queues i) m refl

startup_states-enqueue_found :
    (i : ℕ) (item : Item) (o : Option (List Item)) (m : OverlayManager)
    → (enqueue_found i item o m).startup_states ≡ m.startup_states
unfolding enqueue_found
startup_states-enqueue_found i item none m = refl
startup_states-enqueue_found i item (some q) m = refl

pub startup_states-enqueue :
    (i : ℕ) (item : Item) (m : OverlayManager)
    → (enqueue i item m).startup_states ≡ m.startup_states
unfolding enqueue
startup_states-enqueue i item m = startup_states-enqueue_found i item (find_key m.queues i) m

internal_found :
    (i f : ℕ) (state : OverlayState) (o : Option (List Item)) (m : OverlayManager)
    → (if not (is_some o) || false then m else enqueue_found i (shows f state) o m)
      ≡ enqueue_found i (shows f state) o m
unfolding enqueue_found
internal_found i f state none m = refl
internal_found i f state (some q) m = refl

pub update_feature_state_internal-enqueue :
    (i f : ℕ) (state : OverlayState) (m : OverlayManager)
    → update_feature_state_internal true i f state m ≡ enqueue i (shows f state) m
unfolding update_feature_state_internal enqueue
update_feature_state_internal-enqueue i f state m = internal_found i f state (find_key m.queues i) m

abbrev pub items_of : StartupState → List Item
items_of [] = []
items_of ((f, state) ∷ states) = shows f state ∷ items_of states

append_to-append :
    (xs ys : List Item) (o : Option (List Item))
    → append_to ys (append_to xs o) ≡ append_to (xs ++ ys) o
append_to-append xs ys none = refl
append_to-append xs ys (some q) = ap some (append_assoc q xs ys)

append_to-nil : (o : Option (List Item)) → append_to [] o ≡ o
append_to-nil none = refl
append_to-nil (some q) = ap some (append-nil q)

pub queue_of-flush :
    (id i : ℕ) (states : StartupState) (m : OverlayManager)
    → queue_of id (flush true i states m)
      ≡ (if i == id then append_to (items_of states) (queue_of id m) else queue_of id m)
unfolding flush
queue_of-flush id i [] m = elim (Bool-cases (i == id)) [
  | inl s ↦ rw (s, append_to-nil (queue_of id m))
  | inr s ↦ rw s
]
queue_of-flush id i ((f, state) ∷ states) m =
    let m' = update_feature_state_internal true i f state m in
    let e : queue_of id m'
        ≡ (if i == id then append_to (shows f state ∷ []) (queue_of id m) else queue_of id m) =
      ap (queue_of id) (update_feature_state_internal-enqueue i f state m)
      ∙ queue_of-enqueue id i (shows f state) m in
    elim (Bool-cases (i == id)) [
      | inl s ↦
          let e' : queue_of id m' ≡ append_to (shows f state ∷ []) (queue_of id m) = rw s at e in
          let ih : queue_of id (flush true i states m')
              ≡ append_to (items_of states) (queue_of id m') =
            rw s at (queue_of-flush id i states m') in
          ih
          ∙ ap (append_to (items_of states)) e'
          ∙ append_to-append (shows f state ∷ []) (items_of states) (queue_of id m)
          ∙ rw s refl
      | inr s ↦
          let e' : queue_of id m' ≡ queue_of id m = rw s at e in
          let ih : queue_of id (flush true i states m') ≡ queue_of id m' =
            rw s at (queue_of-flush id i states m') in
          ih ∙ e' ∙ rw s refl
    ]

pub startup_states-flush :
    (i : ℕ) (states : StartupState) (m : OverlayManager)
    → (flush true i states m).startup_states ≡ m.startup_states
unfolding flush
startup_states-flush i [] m = refl
startup_states-flush i ((f, state) ∷ states) m =
    startup_states-flush i states (update_feature_state_internal true i f state m)
    ∙ ap (λ m'. m'.startup_states) (update_feature_state_internal-enqueue i f state m)
    ∙ startup_states-enqueue i (shows f state) m

-- Where the clocks are drawn, they are put behind the operations of the queue.
pub update_device_clocks_of-enqueue :
    (i : ℕ) (m : OverlayManager)
    → (update_device_clocks_of true i m ≡ m)
      ⊎ (update_device_clocks_of true i m ≡ enqueue i shows_clocks m)
unfolding update_device_clocks_of
update_device_clocks_of-enqueue i m =
    elim (Bool-cases (has_key m.startup_states i || (not (has_key m.queues i) || false))) [
      | inl e ↦ inl (rw e)
      | inr e ↦ inr (rw e)
    ]

is_enabled-enqueue_found :
    (i : ℕ) (item : Item) (o : Option (List Item)) (m : OverlayManager)
    → (enqueue_found i item o m).is_enabled ≡ m.is_enabled
unfolding enqueue_found
is_enabled-enqueue_found i item none m = refl
is_enabled-enqueue_found i item (some q) m = refl

pub is_enabled-enqueue :
    (i : ℕ) (item : Item) (m : OverlayManager) → (enqueue i item m).is_enabled ≡ m.is_enabled
unfolding enqueue
is_enabled-enqueue i item m = is_enabled-enqueue_found i item (find_key m.queues i) m

pub is_enabled-flush :
    (i : ℕ) (states : StartupState) (m : OverlayManager)
    → (flush true i states m).is_enabled ≡ m.is_enabled
unfolding flush
is_enabled-flush i [] m = refl
is_enabled-flush i ((f, state) ∷ states) m =
    is_enabled-flush i states (update_feature_state_internal true i f state m)
    ∙ ap (λ m'. m'.is_enabled) (update_feature_state_internal-enqueue i f state m)
    ∙ is_enabled-enqueue i (shows f state) m
