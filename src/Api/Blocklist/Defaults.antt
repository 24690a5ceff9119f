-- ===== src/Api/Blocklist/Defaults.antt =====
-- The entries that a new `ApiBlocklist` holds (source/api/api_blocklist.cpp): those of
-- blocklist.ini beside the library, or a built-in list.
use radeon_developer_panel.Common.{
  Bool, true, false, List, [], ◌∷◌, ◌++◌, Option, none, some, ◌==◌, if◌then◌else◌, Bytes, codes,
  same_bytes,
}
use radeon_developer_panel.Api.Blocklist.Text.{
  file_lines, strip_cr, trim_right, trim, split_at, ends_with,
}

-- The branches of the `#ifdef`.
pub data Platform : Type 0 where
  win32 linux other : Platform

-- `kCaseSensitive`.
abbrev pub case_sensitive : Platform → Bool
case_sensitive win32 = false
case_sensitive linux = true
case_sensitive other = true

-- `kBlocklistSection`.
abbrev pub blocklist_section : Platform → Bytes
blocklist_section win32 = codes "Win32"
blocklist_section linux = codes "Linux"
blocklist_section other = []

abbrev pub fallback_entries_win32 : List Bytes
fallback_entries_win32 =
    codes "svchost.exe"
    ∷ codes "RadeonSettings.exe"
    ∷ codes "RadeonSoftware.exe"
    ∷ codes "taskhost.exe"
    ∷ codes "taskhostw.exe"
    ∷ codes "Taskmgr.exe"
    ∷ codes "amddvr.exe"
    ∷ codes "dwm.exe"
    ∷ codes "dxgiadaptercache.exe"
    ∷ codes "steamwebhelper.exe"
    ∷ codes "AMDRSServ.exe"
    ∷ codes "DeviceCensus.exe"
    ∷ codes "Code.exe"
    ∷ codes "msedge.exe"
    ∷ codes "chrome.exe"
    ∷ codes "Skype.exe"
    ∷ codes "RadeonInstaller.exe"
    ∷ codes "Teams.exe"
    ∷ codes "RadeonGPUAnalyzer.exe"
    ∷ codes "amdspv.exe"
    ∷ codes "rga.exe"
    ∷ codes "dx12_backend.exe"
    ∷ codes "vulkan_backend.exe"
    ∷ codes "vulkandriverquery.exe"
    ∷ codes "vulkandriverquery64.exe"
    ∷ codes "RadeonRaytracingAnalyzer*"
    ∷ codes "msedgewebview2.exe"
    ∷ codes "dxdiag.exe"
    ∷ codes "clinfo.exe"
    ∷ codes "EpicWebHelper.exe"
    ∷ codes "EpicGamesLauncher.exe"
    ∷ codes "AMDRSSrcExt.exe"
    ∷ codes "GPUQuery_External*"
    ∷ codes "cncmd.exe"
    ∷ []

abbrev pub fallback_entries_linux : List Bytes
fallback_entries_linux =
    codes "RadeonGPUAnalyzer"
    ∷ codes "amdspv"
    ∷ codes "vulkan_backend"
    ∷ codes "rga"
    ∷ codes "vulkandriverquery"
    ∷ codes "fossilize_replay"
    ∷ codes "RadeonRaytracingAnalyzer*"
    ∷ []

-- `std::ranges::find(patterns, value) != patterns.end()`.
unfoldable pub has_pattern : List Bytes → Bytes → Bool
unfolding same_bytes
has_pattern [] value = false
has_pattern (p ∷ patterns) value = if same_bytes p value then true else has_pattern patterns value

-- The variables of the loop of `LoadFromIniFile`.
pub record IniState : Type 0 where
  pub in_section : Bool
  pub any_read : Bool
  pub patterns : List Bytes

-- A value that is in the list already is not counted as read.
unfoldable pub read_value : IniState → Bytes → IniState
unfolding has_pattern
read_value st [] = st
read_value st (c ∷ value) =
    if has_pattern st.patterns (c ∷ value)
    then st
    else record st { patterns = st.patterns ++ (c ∷ value) ∷ []; any_read = true }

unfoldable pub read_entry : IniState → Option (Bytes × Bytes) → IniState
unfolding read_value trim trim_right ends_with
read_entry st none = st
read_entry st (some (key, value)) =
    if ends_with (codes "\\name") (trim_right key) then read_value st (trim value) else st

unfoldable pub enter_section : Bytes → IniState → Option (Bytes × Bytes) → IniState
unfolding same_bytes
enter_section section st none = st
enter_section section st (some (title, _)) = record st { in_section = same_bytes title section }

-- One round of the loop, after the carriage return is taken off.
unfoldable pub read_line : Bytes → IniState → Bytes → IniState
unfolding read_entry enter_section split_at
read_line section st [] = st
read_line section st (c ∷ line) =
    if c == b'['
    then enter_section section st (split_at b']' line)
    else if st.in_section
    then read_entry st (split_at b'=' (c ∷ line))
    else st

unfoldable pub read_lines : Bytes → IniState → List Bytes → IniState
unfolding read_line strip_cr
read_lines section st [] = st
read_lines section st (line ∷ lines) =
    read_lines section (read_line section st (strip_cr line)) lines

-- `LoadFromIniFile` on the contents of the file; `none` when it cannot be opened.
unfoldable pub load_from_ini_file : Platform → Option Bytes → List Bytes → Bool × List Bytes
unfolding read_lines file_lines
load_from_ini_file platform none patterns = (false, patterns)
load_from_ini_file platform (some contents) patterns =
    let start : IniState = record { in_section = false; any_read = false; patterns = patterns } in
    let st = read_lines (blocklist_section platform) start (file_lines contents) in
    (st.any_read, st.patterns)

unfoldable pub load_fallback_defaults : Platform → List Bytes → List Bytes
load_fallback_defaults win32 patterns = patterns ++ fallback_entries_win32
load_fallback_defaults linux patterns = patterns ++ fallback_entries_linux
load_fallback_defaults other patterns = patterns

-- What the constructor leaves in `patterns_`.
unfoldable pub default_patterns : Platform → Option Bytes → List Bytes
unfolding load_from_ini_file load_fallback_defaults
default_patterns platform ini =
    let (loaded, patterns) = load_from_ini_file platform ini [] in
    if loaded then patterns else load_fallback_defaults platform patterns
