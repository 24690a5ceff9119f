-- ===== src/Trace/Overlay/Manager.antt =====
-- `OverlayManager` of source/trace/src/overlay_manager.cpp. Each handler holds the mutex, so it is one step.
-- A queue holds the operations for a client since it has connected, in their order, also those that
-- its thread has run. The driver's utilities, and whether the driver is too old, are parameters; a
-- feature is its number.
use radeon_developer_panel.Common.{
  ℕ, ◌+◌, Bool, false, not, ◌||◌, List, [], ◌∷◌, ◌++◌, Option, none, some, ◌==◌, if◌then◌else◌,
  Bytes, find_key, has_key, insert_key, assign_key, erase_key,
}
use radeon_developer_panel.Trace.Source.Clients.{OverlayState}

-- `OverlayFeature::kCount`, which is the line of the device clocks too.
abbrev pub feature_count : ℕ
feature_count = 4

-- An operation of a queue.
pub data Item : Type 0 where
  shows : ℕ → OverlayState → Item
  shows_clocks : Item

abbrev pub StartupState : Type 0
StartupState = List (ℕ × OverlayState)

pub record OverlayManager : Type 0 where
  pub is_enabled : Bool
  pub startup_states : List (ℕ × StartupState)
  pub device_clock_info : List (Bytes × Bytes)
  pub queues : List (ℕ × List Item)
  -- How many threads of queues are left to join.
  pub join_threads : ℕ

abbrev pub new_overlay_manager : OverlayManager
new_overlay_manager = record {
  is_enabled = false;
  startup_states = [];
  device_clock_info = [];
  queues = [];
  join_threads = 0;
}

-- Whether there is system information, and whether its driver is new enough.
unfoldable pub on_router_connected : Option Bool → OverlayManager → OverlayManager
on_router_connected none m = record m { is_enabled = false }
on_router_connected (some is_too_old) m = record m { is_enabled = not is_too_old }

unfoldable pub join_queue_threads : OverlayManager → OverlayManager
join_queue_threads m = record m { join_threads = 0 }

-- The loop over the features.
unfoldable pub insert_inactive : List ℕ → StartupState → StartupState
unfolding insert_key
insert_inactive [] state = state
insert_inactive (f ∷ fs) state = insert_inactive fs (insert_key f OverlayState.inactive state)

abbrev pub all_features : List ℕ
all_features = 0 ∷ 1 ∷ 2 ∷ 3 ∷ []

abbrev pub state_at : Option StartupState → StartupState
state_at none = []
state_at (some state) = state

unfoldable pub add_client : ℕ → OverlayManager → OverlayManager
unfolding insert_inactive assign_key insert_key
add_client id m =
    let states = insert_key id [] m.startup_states in
    record m {
      queues = insert_key id [] m.queues;
      startup_states =
          assign_key id (insert_inactive all_features (state_at (find_key states id))) states;
    }

unfoldable pub on_driver_connected : ℕ → OverlayManager → OverlayManager
unfolding add_client join_queue_threads
on_driver_connected id m =
    if not m.is_enabled then join_queue_threads m else add_client id (join_queue_threads m)

unfoldable pub enqueue_found : ℕ → Item → Option (List Item) → OverlayManager → OverlayManager
unfolding assign_key
enqueue_found id item none m = m
enqueue_found id item (some queue) m = record m {
  queues = assign_key id (queue ++ item ∷ []) m.queues;
}

-- `queues_[id]->Enqueue(...)`.
unfoldable pub enqueue : ℕ → Item → OverlayManager → OverlayManager
unfolding enqueue_found
enqueue id item m = enqueue_found id item (find_key m.queues id) m

unfoldable pub update_feature_state_internal :
    Bool → ℕ → ℕ → OverlayState → OverlayManager → OverlayManager
unfolding enqueue
update_feature_state_internal has_utils id feature state m =
    if not (has_key m.queues id) || not has_utils then m else enqueue id (shows feature state) m

unfoldable pub update_device_clocks_of : Bool → ℕ → OverlayManager → OverlayManager
unfolding enqueue
update_device_clocks_of has_utils id m =
    if has_key m.startup_states id || (not (has_key m.queues id) || not has_utils)
    then m
    else enqueue id shows_clocks m

-- The loop over the state of a client that has started.
unfoldable pub flush : Bool → ℕ → StartupState → OverlayManager → OverlayManager
unfolding update_feature_state_internal
flush has_utils id [] m = m
flush has_utils id ((feature, state) ∷ states) m =
    flush has_utils id states (update_feature_state_internal has_utils id feature state m)

unfoldable pub start_found : Bool → ℕ → Option StartupState → OverlayManager → OverlayManager
unfolding flush update_device_clocks_of erase_key
start_found has_utils id none m = m
start_found has_utils id (some states) m =
    update_device_clocks_of has_utils id
      (flush has_utils id states (record m { startup_states = erase_key id m.startup_states }))

-- `device_init` is `DD_DRIVER_STATE_DEVICEINIT`.
unfoldable pub on_driver_state_changed :
    (has_utils : Bool) (device_init : ℕ) → ℕ → ℕ → OverlayManager → OverlayManager
unfolding start_found
on_driver_state_changed has_utils device_init id state m =
    if not (state == device_init) || not m.is_enabled
    then m
    else start_found has_utils id (find_key m.startup_states id) m

unfoldable pub on_driver_disconnected : ℕ → OverlayManager → OverlayManager
unfolding erase_key
on_driver_disconnected id m =
    let m' = record m { startup_states = erase_key id m.startup_states } in
    if not (has_key m.queues id)
    then m'
    else record m' { join_threads = m.join_threads + 1; queues = erase_key id m.queues }

unfoldable pub update_found :
    Bool → ℕ → ℕ → OverlayState → Option StartupState → OverlayManager → OverlayManager
unfolding update_feature_state_internal assign_key insert_key
update_found has_utils id feature state none m =
    update_feature_state_internal has_utils id feature state m
update_found has_utils id feature state (some states) m = record m {
  startup_states =
      assign_key id
        (if not (has_key states feature)
          then insert_key feature state states
          else assign_key feature state states)
        m.startup_states;
}

unfoldable pub update_feature_state : Bool → ℕ → ℕ → OverlayState → OverlayManager → OverlayManager
unfolding update_found
update_feature_state has_utils id feature state m =
    if not m.is_enabled
    then m
    else update_found has_utils id feature state (find_key m.startup_states id) m

-- The loop over the clients with a queue.
unfoldable pub update_clocks_of_all : Bool → List (ℕ × List Item) → OverlayManager → OverlayManager
unfolding update_device_clocks_of
update_clocks_of_all has_utils [] m = m
update_clocks_of_all has_utils ((id, queue) ∷ qs) m =
    update_clocks_of_all has_utils qs (update_device_clocks_of has_utils id m)

unfoldable pub update_device_clocks : Bool → List (Bytes × Bytes) → OverlayManager → OverlayManager
unfolding update_clocks_of_all
update_device_clocks has_utils info m =
    if not m.is_enabled
    then m
    else update_clocks_of_all has_utils m.queues (record m { device_clock_info = info })
