-- ===== src/Trace/Overlay/Lines.antt =====
-- What the operations of a queue of `OverlayManager` (source/trace/src/overlay_manager.cpp) draw. A line
-- of the driver's overlay is its number; how fmt puts a name and a state into a text is a parameter.
use radeon_developer_panel.Common.{
  ℕ, ◌+◌, ◌≡◌, refl, List, [], ◌∷◌, ◌++◌, Option, some, ◌==◌, if◌then◌else◌, Bytes, codes, length,
}
use radeon_developer_panel.Trace.Source.Clients.{OverlayState}
use radeon_developer_panel.Trace.Overlay.Manager.{Item, shows, shows_clocks, feature_count}

unfoldable pub get_name_for_feature : ℕ → Bytes
get_name_for_feature f =
    if f == 0
    then codes "RGP Profiling"
    else if f == 1
    then codes "RMV Tracing"
    else if f == 2
    then codes "RRA Capture"
    else if f == 3
    then codes "Crash Analysis"
    else codes "Unknown Feature"

unfoldable pub get_string_for_overlay_state : OverlayState → Bytes
get_string_for_overlay_state OverlayState.inactive = codes "Inactive"
get_string_for_overlay_state OverlayState.disabled = codes "Unsupported"
get_string_for_overlay_state OverlayState.error = codes "Error"
get_string_for_overlay_state OverlayState.done = codes "Done"
get_string_for_overlay_state OverlayState.busy = codes "Busy"
get_string_for_overlay_state OverlayState.idle = codes "Ready"
get_string_for_overlay_state OverlayState.waiting_to_begin_capture =
    codes "Waiting to begin capture"
get_string_for_overlay_state OverlayState.capturing = codes "Capturing"
get_string_for_overlay_state OverlayState.dumping = codes "Dumping"
get_string_for_overlay_state OverlayState.processing = codes "Processing"

-- The loop of `GetDeviceClocksString`, with the number of GPUs that have been written.
abbrev pub clock_entries : ℕ → ℕ → List (Bytes × Bytes) → Bytes
clock_entries total added [] = []
clock_entries total added ((gpu, mode) ∷ info) =
    gpu
    ++ codes " - "
    ++ mode
    ++ ((if added + 1 == total then [] else codes ", ") ++ clock_entries total (added + 1) info)

unfoldable pub get_device_clocks_string : List (Bytes × Bytes) → Bytes
get_device_clocks_string [] = []
get_device_clocks_string (e ∷ info) =
    codes "Device Clocks: " ++ clock_entries (length (e ∷ info)) 0 (e ∷ info)

-- The texts of the driver's overlay for a client, by line.
abbrev pub Lines : Type 0
Lines = ℕ → Option Bytes

abbrev pub put_line : ℕ → Bytes → Lines → Lines
put_line i text lines j = if i == j then some text else lines j

-- No text is drawn for clocks that are not known.
abbrev pub draw_clocks : Bytes → Lines → Lines
draw_clocks [] lines = lines
draw_clocks (c ∷ text) lines = put_line feature_count (c ∷ text) lines

unfoldable pub draw : (Bytes → Bytes → Bytes) → Bytes → Item → Lines → Lines
unfolding get_name_for_feature get_string_for_overlay_state
draw format clocks (shows feature state) lines =
    put_line feature (format (get_name_for_feature feature) (get_string_for_overlay_state state))
      lines
draw format clocks shows_clocks lines = draw_clocks clocks lines

-- The thread of a queue runs the operations one by one.
unfoldable pub draw_all : (Bytes → Bytes → Bytes) → Bytes → List Item → Lines → Lines
unfolding draw
draw_all format clocks [] lines = lines
draw_all format clocks (item ∷ items) lines =
    draw_all format clocks items (draw format clocks item lines)

pub draw_all-append_one :
    (format : Bytes → Bytes → Bytes) (clocks : Bytes) (items : List Item) (item : Item)
    (lines : Lines)
    → draw_all format clocks (items ++ item ∷ []) lines
      ≡ draw format clocks item (draw_all format clocks items lines)
unfolding draw_all
draw_all-append_one format clocks [] item lines = refl
draw_all-append_one format clocks (i ∷ items) item lines =
    draw_all-append_one format clocks items item (draw format clocks i lines)
