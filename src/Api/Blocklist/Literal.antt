-- ===== src/Api/Blocklist/Literal.antt =====
-- Patterns with no special byte (source/api/api_blocklist.cpp): they block their own name only.
use radeon_developer_panel.Common.{
  ℕ, ◌≡◌, ◌≢◌, refl, sym, ap, ap₂, ◌↔◌, inl, inr, Bool, true, false, ◌||◌, List, [], ◌∷◌, ◌++◌, map,
  some, arith, Bytes, ◌==◌, Bool-cases, All, same_bytes_iff, length, length-map, ==_iff, subst,
}
use radeon_developer_panel.Api.Wildcard.Token.{token, accepts, stop, one, literal}
use radeon_developer_panel.Api.Wildcard.Relation.{Matches, finish, single, meaning}
use radeon_developer_panel.Api.Blocklist.Text.{to_lower_char, is_separator, get_basename}
use radeon_developer_panel.Api.Blocklist.Defaults.{Platform, win32, linux, other}
use radeon_developer_panel.Api.Blocklist.Entries.{
  ApiBlocklist, fold_case, same_entry, find_entry, add_entry, contains,
}
use radeon_developer_panel.Api.Blocklist.Distinct.{find_entry-append_one}
use radeon_developer_panel.Api.Blocklist.Blocking.{
  Blocks, NotSeparator, contains_iff, get_basename_join,
}

abbrev pub is_special : ℕ → Bool
is_special c = c == b'*' || c == b'?' || c == b'[' || c == 92

abbrev pub Plain : ℕ → Type 0
Plain c = is_special c ≡ false

token-Plain : (c : ℕ) (p : Bytes) → Plain c → token (c ∷ p) ≡ one (literal c) p
unfolding token
token-Plain c [] h = ground arith
token-Plain c (x ∷ p) h = ground arith

token_nil : token [] ≡ stop
unfolding token
token_nil = refl

accepts-literal : (c n : ℕ) → (accepts (literal c) n ≡ true) ↔ (c ≡ n)
unfolding accepts
accepts-literal c n = ==_iff c n

pub Matches_self : (p : Bytes) → All Plain p → Matches p p
Matches_self [] h = finish token_nil
Matches_self (c ∷ p) h =
    single (token-Plain c p h.0) ((accepts-literal c c).1 refl) (Matches_self p h.1)

Matches_unique : (p name : Bytes) → All Plain p → Matches p name → name ≡ p
Matches_unique [] name h d = meaning token_nil d
Matches_unique (c ∷ p) [] h d = absurd (meaning (token-Plain c p h.0) d)
Matches_unique (c ∷ p) (n ∷ name) h d =
    let (e, d') = meaning (token-Plain c p h.0) d in
    ap₂ ◌∷◌ (sym ((accepts-literal c n).0 e)) (Matches_unique p name h.1 d')

Plain-lower : (c : ℕ) → Plain c → Plain (to_lower_char c)
unfolding to_lower_char
Plain-lower c h = ground arith

Plain-map-lower : (p : Bytes) → All Plain p → All Plain (map to_lower_char p)
Plain-map-lower [] h = tt
Plain-map-lower (c ∷ p) h = (Plain-lower c h.0, Plain-map-lower p h.1)

Plain-fold_case : (platform : Platform) (p : Bytes) → All Plain p → All Plain (fold_case platform p)
Plain-fold_case win32 p h = Plain-map-lower p h
Plain-fold_case linux p h = h
Plain-fold_case other p h = h

same_entry→fold :
    (platform : Platform) (p q : Bytes)
    → same_entry platform p q ≡ true
    → fold_case platform p ≡ fold_case platform q
unfolding same_entry
same_entry→fold win32 p q h =
    (same_bytes_iff (map to_lower_char p) (map to_lower_char q)).0 (ground arith)
same_entry→fold linux p q h = (same_bytes_iff p q).0 h
same_entry→fold other p q h = (same_bytes_iff p q).0 h

fold→same_entry :
    (platform : Platform) (p q : Bytes)
    → fold_case platform p ≡ fold_case platform q
    → same_entry platform p q ≡ true
unfolding same_entry
fold→same_entry win32 p q e = ground (
  arith,
  (same_bytes_iff (map to_lower_char p) (map to_lower_char q)).1 e,
  length-map to_lower_char p,
  length-map to_lower_char q,
  ap length e,
)
fold→same_entry linux p q e = (same_bytes_iff p q).1 e
fold→same_entry other p q e = (same_bytes_iff p q).1 e

-- An entry that is found blocks the name, as plain text.
find_entry→Blocks :
    (platform : Platform) (name : Bytes) (ps : List Bytes)
    → All Plain name
    → find_entry platform name ps ≡ true
    → Blocks platform (fold_case platform name) ps
unfolding find_entry
find_entry→Blocks platform name [] h e = cc
find_entry→Blocks platform name (p ∷ ps) h e = elim (Bool-cases (same_entry platform p name)) [
  | inl s ↦ inl (
      subst (λ q. Matches q (fold_case platform name)) (sym (same_entry→fold platform p name s))
        (Matches_self (fold_case platform name) (Plain-fold_case platform name h)))
  | inr s ↦ inr (find_entry→Blocks platform name ps h (ground arith))
]

Blocks→find_entry :
    (platform : Platform) (name : Bytes) (ps : List Bytes)
    → All (All Plain) ps
    → Blocks platform (fold_case platform name) ps
    → find_entry platform name ps ≡ true
unfolding find_entry
Blocks→find_entry platform name [] h d = absurd d
Blocks→find_entry platform name (p ∷ ps) h (inl d) =
    let e =
      Matches_unique (fold_case platform p) (fold_case platform name)
        (Plain-fold_case platform p h.0) d in
    rw (fold→same_entry platform p name (sym e))
Blocks→find_entry platform name (p ∷ ps) h (inr d) =
    ground (arith, Blocks→find_entry platform name ps h.1 d)

-- The same where it is the stored patterns that are plain.
Plain-entry→Blocks :
    (platform : Platform) (name : Bytes) (ps : List Bytes)
    → All (All Plain) ps
    → find_entry platform name ps ≡ true
    → Blocks platform (fold_case platform name) ps
unfolding find_entry
Plain-entry→Blocks platform name [] h e = cc
Plain-entry→Blocks platform name (p ∷ ps) h e = elim (Bool-cases (same_entry platform p name)) [
  | inl s ↦ inl (
      subst (Matches (fold_case platform p)) (same_entry→fold platform p name s)
        (Matches_self (fold_case platform p) (Plain-fold_case platform p h.0)))
  | inr s ↦ inr (Plain-entry→Blocks platform name ps h.1 (ground arith))
]

eq_of_iff : (a b : Bool) → (a ≡ true) ↔ (b ≡ true) → a ≡ b
eq_of_iff true b h = sym (h.0 refl)
eq_of_iff false true h = h.1 refl
eq_of_iff false false h = refl

-- As long as no stored pattern has a special byte, a process is blocked exactly if its file name is
-- an entry, as `AddEntry` and `RemoveEntry` compare entries.
pub contains-find_entry :
    (platform : Platform) (b : ApiBlocklist) (path : Bytes)
    → All (All Plain) b.patterns
    → get_basename path ≢ []
    → contains platform b path ≡ find_entry platform (get_basename path) b.patterns
contains-find_entry platform b path h n =
    let name = get_basename path in
    eq_of_iff (contains platform b path) (find_entry platform name b.patterns) (
      λ e. Blocks→find_entry platform name b.patterns h ((contains_iff platform b path).0 e).1,
      λ e. (contains_iff platform b path).1 (n, Plain-entry→Blocks platform name b.patterns h e),
    )

find_entry-add_entry :
    (platform : Platform) (c : ℕ) (name : Bytes) (b : ApiBlocklist)
    → find_entry platform (c ∷ name) (add_entry platform (some (c ∷ name)) b).1.patterns ≡ true
unfolding add_entry
find_entry-add_entry platform c name b =
    ground (arith, find_entry-append_one platform (c ∷ name) b.patterns)

-- After `AddEntry` of a name with no special byte and no separator, a process of that name is
-- blocked, whatever its directory and whatever the list held before.
pub contains-add_entry :
    (platform : Platform) (c : ℕ) (name : Bytes) (b : ApiBlocklist)
    → All Plain (c ∷ name)
    → All NotSeparator (c ∷ name)
    → (dir : Bytes) (sep : ℕ) → is_separator sep ≡ true
    → contains platform (add_entry platform (some (c ∷ name)) b).1 (dir ++ sep ∷ c ∷ name) ≡ true
contains-add_entry platform c name b plain bare dir sep s =
    let e = (get_basename_join (c ∷ name) bare).1 dir sep s in
    let b' = (add_entry platform (some (c ∷ name)) b).1 in
    (contains_iff platform b' (dir ++ sep ∷ c ∷ name)).1 (
      λ q. cc (e, q),
      rw e (
          find_entry→Blocks platform (c ∷ name) b'.patterns plain
            (find_entry-add_entry platform c name b)),
    )
