-- ===== src/Api/Blocklist/Text.antt =====
-- The string routines of source/api/api_blocklist.cpp over byte strings: `std::getline`, the
-- trimming of lines, `ToLowerChar` and `GetBasename`.
use radeon_developer_panel.Common.{
  ℕ, ◌+◌, ◌-◌, Bool, ◌&&◌, ◌||◌, List, [], ◌∷◌, Option, none, some, leb, ◌==◌, if◌then◌else◌, Bytes,
  same_bytes, length, drop,
}

abbrev push_byte : ℕ → List Bytes → List Bytes
push_byte c [] = (c ∷ []) ∷ []
push_byte c (line ∷ lines) = (c ∷ line) ∷ lines

-- `while (std::getline(file, line))`: a last line with no bytes is not delivered.
unfoldable pub file_lines : Bytes → List Bytes
file_lines [] = []
file_lines (c ∷ s) = let rest = file_lines s in if c == 10 then [] ∷ rest else push_byte c rest

-- `if (!line.empty() && line.back() == '\r') line.pop_back();`
unfoldable pub strip_cr : Bytes → Bytes
strip_cr [] = []
strip_cr (c ∷ []) = if c == 13 then [] else c ∷ []
strip_cr (c ∷ d ∷ s) = c ∷ strip_cr (d ∷ s)

-- A member of `" \t"`.
abbrev pub is_blank : ℕ → Bool
is_blank c = c == 32 || c == 9

unfoldable pub trim_left : Bytes → Bytes
trim_left [] = []
trim_left (c ∷ s) = let rest = trim_left s in if is_blank c then rest else c ∷ s

abbrev keep_right : ℕ → Bytes → Bytes
keep_right c [] = if is_blank c then [] else c ∷ []
keep_right c (d ∷ s) = c ∷ d ∷ s

-- `while (!key.empty() && (key.back() == ' ' || key.back() == '\t')) key.pop_back();`
unfoldable pub trim_right : Bytes → Bytes
trim_right [] = []
trim_right (c ∷ s) = keep_right c (trim_right s)

-- `substr(first, last - first + 1)` between `find_first_not_of` and `find_last_not_of`; empty where
-- they find nothing.
unfoldable pub trim : Bytes → Bytes
unfolding trim_left trim_right
trim s = trim_right (trim_left s)

abbrev before_with : ℕ → Option (Bytes × Bytes) → Option (Bytes × Bytes)
before_with c none = none
before_with c (some (before, after)) = some (c ∷ before, after)

-- `find(x)`: the bytes before the first `x` and those behind it.
unfoldable pub split_at : ℕ → Bytes → Option (Bytes × Bytes)
split_at x [] = none
split_at x (c ∷ s) =
    let rest = before_with c (split_at x s) in if c == x then some ([], s) else rest

unfoldable pub ends_with : Bytes → Bytes → Bool
unfolding same_bytes
ends_with suffix s =
    leb (length suffix) (length s) && same_bytes (drop (length s - length suffix) s) suffix

-- `ToLowerChar`: `std::tolower` in the C locale.
unfoldable pub to_lower_char : ℕ → ℕ
to_lower_char c = if leb b'A' c && leb c b'Z' then c + 32 else c

abbrev pub is_separator : ℕ → Bool
is_separator c = c == b'/' || c == 92

abbrev after_with : ℕ → Bytes → Option Bytes → Option Bytes
after_with c s none = if is_separator c then some s else none
after_with c s (some after) = some after

-- `find_last_of("/\\")`: the bytes behind the last separator.
unfoldable pub after_separator : Bytes → Option Bytes
after_separator [] = none
after_separator (c ∷ s) = after_with c s (after_separator s)

abbrev or_whole : Bytes → Option Bytes → Bytes
or_whole path none = path
or_whole path (some after) = after

-- `ApiBlocklist::GetBasename`.
unfoldable pub get_basename : Bytes → Bytes
unfolding after_separator
get_basename path = or_whole path (after_separator path)
