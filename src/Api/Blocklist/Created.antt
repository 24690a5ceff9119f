-- ===== src/Api/Blocklist/Created.antt =====
-- The constructor of `ApiBlocklist` (source/api/api_blocklist.cpp), and every history after it.
use radeon_developer_panel.Common.{
  ◌≡◌, refl, Bool, Bool-cases, inl, inr, true, false, List, [], ◌∷◌, Option, none, some, arith,
  Bytes, if◌then◌else◌, not, ◌&&◌,
}
use radeon_developer_panel.Api.Blocklist.Text.{file_lines, strip_cr, split_at, trim}
use radeon_developer_panel.Api.Blocklist.Defaults.{
  Platform, win32, linux, other, IniState, blocklist_section, has_pattern, read_value, read_entry,
  enter_section, read_line, read_lines, load_fallback_defaults, default_patterns,
  fallback_entries_win32, fallback_entries_linux,
}
use radeon_developer_panel.Api.Blocklist.Entries.{new_blocklist}
use radeon_developer_panel.Api.Blocklist.Distinct.{
  Distinct, Distinct-append_one, Call, run, run-Distinct,
}

-- Entries are distinct, and there are none as long as nothing was read.
record IniInv (st : IniState) : Type 0 where
  distinct : Distinct st.patterns
  unread : st.any_read ≡ false → st.patterns ≡ []

read_value-IniInv : (st : IniState) (value : Bytes) → IniInv st → IniInv (read_value st value)
unfolding read_value
read_value-IniInv st [] i = i
read_value-IniInv st (c ∷ value) i =
    ground (arith, Distinct-append_one st.patterns (c ∷ value) i.distinct)

read_entry-IniInv :
    (st : IniState) (e : Option (Bytes × Bytes)) → IniInv st → IniInv (read_entry st e)
unfolding read_entry
read_entry-IniInv st none i = i
read_entry-IniInv st (some (key, value)) i = ground (arith, read_value-IniInv st (trim value) i)

enter_section-IniInv :
    (section : Bytes) (st : IniState) (e : Option (Bytes × Bytes))
    → IniInv st
    → IniInv (enter_section section st e)
unfolding enter_section
enter_section-IniInv section st none i = i
enter_section-IniInv section st (some (title, rest)) i = record {
  distinct = i.distinct;
  unread = i.unread;
}

read_line-IniInv :
    (section : Bytes) (st : IniState) (line : Bytes)
    → IniInv st
    → IniInv (read_line section st line)
unfolding read_line
read_line-IniInv section st [] i = i
read_line-IniInv section st (c ∷ line) i = ground (
  arith,
  enter_section-IniInv section st (split_at b']' line) i,
  read_entry-IniInv st (split_at b'=' (c ∷ line)) i,
)

read_lines-IniInv :
    (section : Bytes) (st : IniState) (lines : List Bytes)
    → IniInv st
    → IniInv (read_lines section st lines)
unfolding read_lines
read_lines-IniInv section st [] i = i
read_lines-IniInv section st (line ∷ lines) i =
    read_lines-IniInv section (read_line section st (strip_cr line)) lines
      (read_line-IniInv section st (strip_cr line) i)

all_distinct : List Bytes → Bool
all_distinct [] = true
all_distinct (p ∷ ps) = not (has_pattern ps p) && all_distinct ps

all_distinct→Distinct : (ps : List Bytes) → all_distinct ps ≡ true → Distinct ps
unfolding all_distinct
all_distinct→Distinct [] h = tt
all_distinct→Distinct (p ∷ ps) h = ground (arith, all_distinct→Distinct ps)

fallback-Distinct : (platform : Platform) → Distinct (load_fallback_defaults platform [])
unfolding load_fallback_defaults
fallback-Distinct win32 =
    all_distinct→Distinct fallback_entries_win32 (unfold all_distinct has_pattern in refl)
fallback-Distinct linux =
    all_distinct→Distinct fallback_entries_linux (unfold all_distinct has_pattern in refl)
fallback-Distinct other = tt

chosen-Distinct :
    (platform : Platform) (st : IniState)
    → IniInv st
    → Distinct (if st.any_read then st.patterns else load_fallback_defaults platform st.patterns)
chosen-Distinct platform st i = elim (Bool-cases st.any_read) [
  | inl h ↦ rw h i.distinct
  | inr h ↦ rw (h, i.unread h) (fallback-Distinct platform)
]

default_patterns-Distinct :
    (platform : Platform) (ini : Option Bytes) → Distinct (default_patterns platform ini)
unfolding default_patterns
default_patterns-Distinct platform none = fallback-Distinct platform
default_patterns-Distinct platform (some contents) =
    let start : IniState = record { in_section = false; any_read = false; patterns = [] } in
    chosen-Distinct platform (read_lines (blocklist_section platform) start (file_lines contents)) (
      read_lines-IniInv (blocklist_section platform) start (file_lines contents)
        (record { distinct = tt; unread = λ h. refl }))

-- A new blocklist holds no pattern twice, and no sequence of calls makes it store one twice.
pub run-new_blocklist-Distinct :
    (platform : Platform) (ini : Option Bytes) (cs : List Call)
    → Distinct (run platform (new_blocklist platform ini) cs).patterns
unfolding new_blocklist
run-new_blocklist-Distinct platform ini cs =
    run-Distinct platform (new_blocklist platform ini) cs (default_patterns-Distinct platform ini)
