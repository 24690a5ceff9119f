-- ===== src/Api/Examples/Blocklist.antt =====
-- The theorems on source/api/api_blocklist.cpp at concrete inputs.
use radeon_developer_panel.Common.{◌≡◌, true, ◌↔◌, ◌≢◌, List, [], ◌∷◌, none, some, Bytes, codes}
use radeon_developer_panel.Api.Wildcard.Loop.{matches_wildcard}
use radeon_developer_panel.Api.Wildcard.Relation.{Matches}
use radeon_developer_panel.Api.Wildcard.Decision.{Decides, matches_wildcard-Decides}
use radeon_developer_panel.Api.Blocklist.Text.{get_basename}
use radeon_developer_panel.Api.Blocklist.Defaults.{win32}
use radeon_developer_panel.Api.Blocklist.Entries.{ApiBlocklist, new_blocklist, contains, fold_case}
use radeon_developer_panel.Api.Blocklist.Distinct.{
  Distinct, Call, adds, removes, loads, registers, run,
}
use radeon_developer_panel.Api.Blocklist.Created.{run-new_blocklist-Distinct}
use radeon_developer_panel.Api.Blocklist.Blocking.{Blocks, contains_iff}

-- A list with one wildcard.
abbrev some_list : ApiBlocklist
some_list = record {
  patterns = codes "steam*" ∷ codes "game.exe" ∷ [];
  blocked_callback = none;
  blocked_user_data = 0;
}

-- A list of names only.
abbrev plain_list : ApiBlocklist
plain_list = record some_list { patterns = codes "game.exe" ∷ [] }

abbrev steam_path : Bytes
steam_path = codes "C:/Valve/SteamService.exe"

abbrev two_lines : Bytes
two_lines = codes "tool.exe\ngame.exe\n"

matches_wildcard-Decides_example :
    Decides
      (Matches (codes "a*[b-d]?") (codes "axcyb"))
      (matches_wildcard (codes "axcyb") (codes "a*[b-d]?"))
matches_wildcard-Decides_example = matches_wildcard-Decides (codes "axcyb") (codes "a*[b-d]?")

abbrev some_calls : List Call
some_calls =
    adds (some (codes "game.exe"))
    ∷ adds (some (codes "GAME.exe"))
    ∷ loads (some (codes "list.txt")) (some two_lines)
    ∷ removes (some (codes "tool.exe"))
    ∷ registers (some 1) 2
    ∷ []

run-new_blocklist-Distinct_example :
    Distinct (run win32 (new_blocklist win32 none) some_calls).patterns
run-new_blocklist-Distinct_example = run-new_blocklist-Distinct win32 none some_calls

contains_iff_example : (contains win32 some_list steam_path ≡ true) ↔ (
    (get_basename steam_path ≢ [])
    × Blocks win32 (fold_case win32 (get_basename steam_path)) some_list.patterns)
contains_iff_example = contains_iff win32 some_list steam_path
