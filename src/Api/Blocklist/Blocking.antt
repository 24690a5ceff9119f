-- ===== src/Api/Blocklist/Blocking.antt =====
-- Which processes the blocklist blocks: `Contains` of source/api/api_blocklist.cpp against the
-- meaning of the patterns.
use mathlib.Core.Option
use radeon_developer_panel.Common.{
  ℕ, ◌≡◌, refl, sym, ap, ◌∙◌, ◌≢◌, ◌↔◌, ◌⊎◌, inl, inr, true, false, List, [], ◌∷◌, ◌++◌, map, none,
  some, arith, Bytes, Bool-cases, All,
}
use radeon_developer_panel.Api.Wildcard.Loop.{
  Outcome, answer, overrun, out_of_fuel, matches_wildcard,
}
use radeon_developer_panel.Api.Wildcard.Relation.{Matches}
use radeon_developer_panel.Api.Wildcard.Decision.{Decides, matches_wildcard-Decides}
use radeon_developer_panel.Api.Blocklist.Text.{
  to_lower_char, is_separator, after_separator, get_basename,
}
use radeon_developer_panel.Api.Blocklist.Defaults.{Platform, win32}
use radeon_developer_panel.Api.Blocklist.Entries.{
  ApiBlocklist, fold_case, is_match, any_match, contains_name, contains,
}

-- Some pattern of the list means the name.
abbrev pub Blocks : Platform → Bytes → List Bytes → Type 0
Blocks platform name [] = ⊥
Blocks platform name (p ∷ ps) = Matches (fold_case platform p) name ⊎ Blocks platform name ps

Decides→is_match : {G : Type 0} (r : Outcome) → Decides G r → (is_match r ≡ true) ↔ G
Decides→is_match (answer true) d = (λ h. d, λ g. refl)
Decides→is_match (answer false) d = (λ h. cc, λ g. absurd (d g))
Decides→is_match overrun d = absurd d
Decides→is_match out_of_fuel d = absurd d

any_match→Blocks :
    (platform : Platform) (name : Bytes) (ps : List Bytes)
    → any_match platform name ps ≡ true
    → Blocks platform name ps
unfolding any_match
any_match→Blocks platform name [] h = cc
any_match→Blocks platform name (p ∷ ps) h =
    let r = matches_wildcard name (fold_case platform p) in
    elim (Bool-cases (is_match r)) [
      | inl e ↦
          inl ((Decides→is_match r (matches_wildcard-Decides name (fold_case platform p))).0 e)
      | inr e ↦ inr (any_match→Blocks platform name ps (ground arith))
    ]

Blocks→any_match :
    (platform : Platform) (name : Bytes) (ps : List Bytes)
    → Blocks platform name ps
    → any_match platform name ps ≡ true
unfolding any_match
Blocks→any_match platform name [] h = absurd h
Blocks→any_match platform name (p ∷ ps) (inl d) =
    let r = matches_wildcard name (fold_case platform p) in
    rw ((Decides→is_match r (matches_wildcard-Decides name (fold_case platform p))).1 d)
Blocks→any_match platform name (p ∷ ps) (inr h) =
    ground (arith, Blocks→any_match platform name ps h)

contains_name_iff :
    (platform : Platform) (name : Bytes) (ps : List Bytes)
    → (contains_name platform name ps ≡ true)
      ↔ ((name ≢ []) × Blocks platform (fold_case platform name) ps)
unfolding contains_name
contains_name_iff platform [] ps = (λ h. cc, λ (n, _). absurd (n refl))
contains_name_iff platform (c ∷ name) ps = (
  λ h. (λ e. cc e, any_match→Blocks platform (fold_case platform (c ∷ name)) ps h),
  λ (_, d). Blocks→any_match platform (fold_case platform (c ∷ name)) ps d,
)

-- A process is blocked exactly if its path has a file name and some pattern means it, both in lower
-- case where the platform ignores case.
pub contains_iff :
    (platform : Platform) (b : ApiBlocklist) (path : Bytes)
    → (contains platform b path ≡ true) ↔ (
        (get_basename path ≢ [])
        × Blocks platform (fold_case platform (get_basename path)) b.patterns)
unfolding contains
contains_iff platform b path = contains_name_iff platform (get_basename path) b.patterns

abbrev pub NotSeparator : ℕ → Type 0
NotSeparator c = is_separator c ≡ false

after_separator-none : (name : Bytes) → All NotSeparator name → after_separator name ≡ none
unfolding after_separator
after_separator-none [] h = refl
after_separator-none (c ∷ name) h = ground (arith, after_separator-none name h.1)

after_separator-append :
    (dir name : Bytes) (c : ℕ)
    → is_separator c ≡ true
    → All NotSeparator name
    → after_separator (dir ++ c ∷ name) ≡ some name
unfolding after_separator
after_separator-append [] name c s h = ground (arith, after_separator-none name h)
after_separator-append (d ∷ dir) name c s h = ground (arith, after_separator-append dir name c s h)

-- `GetBasename` returns a bare name as it is, and takes off any directory, up to its last separator.
pub get_basename_join :
    (name : Bytes)
    → All NotSeparator name
    → (get_basename name ≡ name)
      × ((dir : Bytes) (c : ℕ) → is_separator c ≡ true → get_basename (dir ++ c ∷ name) ≡ name)
unfolding get_basename
get_basename_join name h =
    (rw (after_separator-none name h), λ dir c s. rw (after_separator-append dir name c s h))

is_separator-to_lower_char : (c : ℕ) → is_separator (to_lower_char c) ≡ is_separator c
unfolding to_lower_char
is_separator-to_lower_char c = ground arith

after_separator-lower :
    (path : Bytes)
    → after_separator (map to_lower_char path)
      ≡ Option.map (map to_lower_char) (after_separator path)
unfolding after_separator
after_separator-lower [] = refl
after_separator-lower (c ∷ path) =
    ground (arith, after_separator-lower path, is_separator-to_lower_char c)

get_basename-lower :
    (path : Bytes) → get_basename (map to_lower_char path) ≡ map to_lower_char (get_basename path)
unfolding get_basename
get_basename-lower path = ground (arith, after_separator-lower path)

contains_name-case :
    (n m : Bytes) (ps : List Bytes)
    → map to_lower_char n ≡ map to_lower_char m
    → contains_name win32 n ps ≡ contains_name win32 m ps
unfolding contains_name
contains_name-case [] [] ps e = refl
contains_name-case [] (d ∷ m) ps e = cc
contains_name-case (c ∷ n) [] ps e = cc
contains_name-case (c ∷ n) (d ∷ m) ps e = ap (λ s. any_match win32 s ps) e

-- On Windows two paths that differ in case only are both blocked or both let through.
pub contains-case :
    (b : ApiBlocklist) (path other_path : Bytes)
    → map to_lower_char path ≡ map to_lower_char other_path
    → contains win32 b path ≡ contains win32 b other_path
unfolding contains
contains-case b path other_path e =
    contains_name-case (get_basename path) (get_basename other_path) b.patterns
      (sym (get_basename-lower path) ∙ ap get_basename e ∙ get_basename-lower other_path)
