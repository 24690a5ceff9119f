-- ===== src/Api/Blocklist/Entries.antt =====
-- `ApiBlocklist` of source/api/api_blocklist.cpp. Each method holds the mutex while it touches the
-- state, so a method is one step; a null `const char*` is `none`.
use radeon_developer_panel.Common.{
  ℕ, Bool, true, false, ◌&&◌, List, [], ◌∷◌, ◌++◌, map, Option, none, some, ◌==◌, if◌then◌else◌,
  Bytes, same_bytes, length,
}
use radeon_developer_panel.Api.Result.{CaptureResult, success, not_found, invalid_params}
use radeon_developer_panel.Api.Wildcard.Loop.{
  Outcome, answer, overrun, out_of_fuel, matches_wildcard,
}
use radeon_developer_panel.Api.Blocklist.Text.{
  file_lines, strip_cr, trim, to_lower_char, get_basename,
}
use radeon_developer_panel.Api.Blocklist.Defaults.{
  Platform, case_sensitive, has_pattern, default_patterns,
}

-- `blocked_callback` is the address of the function, or null.
pub record ApiBlocklist : Type 0 where
  pub patterns : List Bytes
  pub blocked_callback : Option ℕ
  pub blocked_user_data : ℕ

unfoldable pub new_blocklist : Platform → Option Bytes → ApiBlocklist
unfolding default_patterns
new_blocklist platform ini = record {
  patterns = default_patterns platform ini;
  blocked_callback = none;
  blocked_user_data = 0;
}

-- The name as it is compared: lower case where case is ignored.
abbrev pub fold_case : Platform → Bytes → Bytes
fold_case platform s = if case_sensitive platform then s else map to_lower_char s

-- The lambda `matches` of `AddEntry` and `RemoveEntry`.
unfoldable pub same_entry : Platform → Bytes → Bytes → Bool
unfolding same_bytes to_lower_char
same_entry platform existing pattern =
    if case_sensitive platform
    then same_bytes existing pattern
    else if length existing == length pattern
    then same_bytes (map to_lower_char existing) (map to_lower_char pattern)
    else false

unfoldable pub find_entry : Platform → Bytes → List Bytes → Bool
unfolding same_entry
find_entry platform pattern [] = false
find_entry platform pattern (p ∷ ps) =
    if same_entry platform p pattern then true else find_entry platform pattern ps

-- `patterns_.erase(it)` at the first entry that matches.
unfoldable pub erase_entry : Platform → Bytes → List Bytes → List Bytes
unfolding same_entry
erase_entry platform pattern [] = []
erase_entry platform pattern (p ∷ ps) =
    if same_entry platform p pattern then ps else p ∷ erase_entry platform pattern ps

unfoldable pub add_entry : Platform → Option Bytes → ApiBlocklist → CaptureResult × ApiBlocklist
unfolding find_entry
add_entry platform none b = (invalid_params, b)
add_entry platform (some []) b = (invalid_params, b)
add_entry platform (some (c ∷ pattern)) b =
    if find_entry platform (c ∷ pattern) b.patterns
    then (success, b)
    else (success, record b { patterns = b.patterns ++ (c ∷ pattern) ∷ [] })

unfoldable pub remove_entry : Platform → Option Bytes → ApiBlocklist → CaptureResult × ApiBlocklist
unfolding find_entry erase_entry
remove_entry platform none b = (invalid_params, b)
remove_entry platform (some pattern) b =
    if find_entry platform pattern b.patterns
    then (success, record b { patterns = erase_entry platform pattern b.patterns })
    else (not_found, b)

unfoldable pub clear : ApiBlocklist → ApiBlocklist
clear b = record b { patterns = [] }

abbrev unless_comment : Bytes → Option Bytes
unless_comment [] = none
unless_comment (c ∷ line) = if c == b'#' then none else some (c ∷ line)

-- The pattern that a line of the file holds.
unfoldable pub line_pattern : Bytes → Option Bytes
unfolding strip_cr trim
line_pattern line = unless_comment (trim (strip_cr line))

abbrev cons_some : Option Bytes → List Bytes → List Bytes
cons_some none ps = ps
cons_some (some p) ps = p ∷ ps

unfoldable pub new_patterns : List Bytes → List Bytes
unfolding line_pattern
new_patterns [] = []
new_patterns (line ∷ lines) = cons_some (line_pattern line) (new_patterns lines)

unfoldable pub merge_patterns : List Bytes → List Bytes → List Bytes
unfolding has_pattern
merge_patterns patterns [] = patterns
merge_patterns patterns (p ∷ ps) =
    merge_patterns (if has_pattern patterns p then patterns else patterns ++ p ∷ []) ps

-- The path, and the contents of the file there (`none` if it cannot be opened).
unfoldable pub load_file : Option Bytes → Option Bytes → ApiBlocklist → CaptureResult × ApiBlocklist
unfolding merge_patterns new_patterns file_lines
load_file none file b = (invalid_params, b)
load_file (some []) file b = (invalid_params, b)
load_file (some (c ∷ path)) none b = (not_found, b)
load_file (some (c ∷ path)) (some contents) b = (
  success,
  record b { patterns = merge_patterns b.patterns (new_patterns (file_lines contents)) },
)

-- The copies that `GetEntries` hands out, each with its terminator; null for an empty list. Nothing
-- is written where an out pointer is null.
unfoldable pub get_entries : Bool → Bool → ApiBlocklist → Option (Option (List Bytes) × ℕ)
get_entries entries_out num_entries b =
    if entries_out && num_entries
    then some (
      elim b.patterns [ [] ↦ none | p ∷ ps ↦ some (map (λ s. s ++ 0 ∷ []) (p ∷ ps)) ],
      length b.patterns,
    )
    else none

abbrev pub is_match : Outcome → Bool
is_match (answer b) = b
is_match overrun = false
is_match out_of_fuel = false

-- The loop of `Contains`.
unfoldable pub any_match : Platform → Bytes → List Bytes → Bool
unfolding matches_wildcard to_lower_char
any_match platform name [] = false
any_match platform name (p ∷ ps) =
    if is_match (matches_wildcard name (fold_case platform p))
    then true
    else any_match platform name ps

-- `Contains` behind the call of `GetBasename`.
unfoldable pub contains_name : Platform → Bytes → List Bytes → Bool
unfolding any_match
contains_name platform [] ps = false
contains_name platform (c ∷ name) ps = any_match platform (fold_case platform (c ∷ name)) ps

unfoldable pub contains : Platform → ApiBlocklist → Bytes → Bool
unfolding contains_name get_basename
contains platform b process_path = contains_name platform (get_basename process_path) b.patterns

unfoldable pub set_blocked_callback : Option ℕ → ℕ → ApiBlocklist → ApiBlocklist
set_blocked_callback callback user_data b = record b {
  blocked_callback = callback;
  blocked_user_data = user_data;
}

-- A call of the callback that the client registered.
pub record BlockedCall : Type 0 where
  pub callback : ℕ
  pub user_data : ℕ
  pub process_path : Bytes
  pub process_id : ℕ

unfoldable pub notify_blocked : Bytes → ℕ → ApiBlocklist → Option BlockedCall
notify_blocked process_path process_id b = elim b.blocked_callback [
  | none ↦ none
  | some callback ↦ some (record {
    callback = callback;
    user_data = b.blocked_user_data;
    process_path = process_path;
    process_id = process_id;
  })
]
