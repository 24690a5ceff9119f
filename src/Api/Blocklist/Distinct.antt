-- ===== src/Api/Blocklist/Distinct.antt =====
-- No call of the blocklist (source/api/api_blocklist.cpp) stores a pattern twice.
use radeon_developer_panel.Common.{
  ℕ, ◌≡◌, refl, true, false, List, [], ◌∷◌, ◌++◌, map, Option, none, some, ap, arith, inl, inr,
  Bytes, same_bytes, same_bytes_iff, same_bytes_refl, Bool-cases, if◌then◌else◌,
}
use radeon_developer_panel.Api.Blocklist.Text.{file_lines, to_lower_char}
use radeon_developer_panel.Api.Blocklist.Defaults.{Platform, win32, linux, other, has_pattern}
use radeon_developer_panel.Api.Blocklist.Entries.{
  ApiBlocklist, same_entry, find_entry, erase_entry, add_entry, remove_entry, clear, new_patterns,
  merge_patterns, load_file, set_blocked_callback,
}

-- No entry is a copy of a later one.
abbrev pub Distinct : List Bytes → Type 0
Distinct [] = Unit
Distinct (p ∷ ps) = (has_pattern ps p ≡ false) × Distinct ps

pub has_pattern-append :
    (xs ys : List Bytes) (p : Bytes)
    → has_pattern (xs ++ ys) p ≡ (if has_pattern xs p then true else has_pattern ys p)
unfolding has_pattern
has_pattern-append [] ys p = refl
has_pattern-append (x ∷ xs) ys p = ground (arith, has_pattern-append xs ys p)

-- `==` does not depend on the order of the two strings.
pub same_bytes_comm : (s t : Bytes) → same_bytes s t ≡ same_bytes t s
same_bytes_comm s t = elim (Bool-cases (same_bytes s t)) [
  | inl h ↦ let e = (same_bytes_iff s t).0 h in rw e
  | inr h ↦ elim (Bool-cases (same_bytes t s)) [
    | inl k ↦ let e = (same_bytes_iff t s).0 k in rw e
    | inr k ↦ rw (h, k)
  ]
]

pub Distinct-append_one :
    (xs : List Bytes) (p : Bytes) → Distinct xs → has_pattern xs p ≡ false → Distinct (xs ++ p ∷ [])
unfolding has_pattern
Distinct-append_one [] p d h = (refl, tt)
Distinct-append_one (x ∷ xs) p d h =
    ground
      (arith, Distinct-append_one xs p d.1, has_pattern-append xs (p ∷ []) x, same_bytes_comm x p)

pub same_entry_refl : (platform : Platform) (p : Bytes) → same_entry platform p p ≡ true
unfolding same_entry
same_entry_refl win32 p = ground (arith, same_bytes_refl (map to_lower_char p))
same_entry_refl linux p = same_bytes_refl p
same_entry_refl other p = same_bytes_refl p

-- An entry that is stored as it stands is found, whether or not case counts.
pub find_entry→has_pattern :
    (platform : Platform) (p : Bytes) (ps : List Bytes)
    → find_entry platform p ps ≡ false
    → has_pattern ps p ≡ false
unfolding find_entry has_pattern
find_entry→has_pattern platform p [] h = refl
find_entry→has_pattern platform p (x ∷ ps) h = elim (Bool-cases (same_bytes x p)) [
  | inl e ↦
      let q = (same_bytes_iff x p).0 e in
      ground (arith, same_entry_refl platform p, ap (λ y. same_entry platform y p) q)
  | inr e ↦ ground (arith, find_entry→has_pattern platform p ps)
]

pub find_entry-append_one :
    (platform : Platform) (p : Bytes) (ps : List Bytes)
    → find_entry platform p (ps ++ p ∷ []) ≡ true
unfolding find_entry
find_entry-append_one platform p [] = rw (same_entry_refl platform p)
find_entry-append_one platform p (x ∷ ps) = ground (arith, find_entry-append_one platform p ps)

add_entry-Distinct :
    (platform : Platform) (p : Option Bytes) (b : ApiBlocklist)
    → Distinct b.patterns
    → Distinct (add_entry platform p b).1.patterns
unfolding add_entry
add_entry-Distinct platform none b d = d
add_entry-Distinct platform (some []) b d = d
add_entry-Distinct platform (some (c ∷ p)) b d = ground (
  arith,
  Distinct-append_one b.patterns (c ∷ p) d,
  find_entry→has_pattern platform (c ∷ p) b.patterns,
)

has_pattern-erase_entry :
    (platform : Platform) (p q : Bytes) (ps : List Bytes)
    → has_pattern ps q ≡ false
    → has_pattern (erase_entry platform p ps) q ≡ false
unfolding has_pattern erase_entry
has_pattern-erase_entry platform p q [] h = refl
has_pattern-erase_entry platform p q (x ∷ ps) h =
    ground (arith, has_pattern-erase_entry platform p q ps)

erase_entry-Distinct :
    (platform : Platform) (p : Bytes) (ps : List Bytes)
    → Distinct ps
    → Distinct (erase_entry platform p ps)
unfolding erase_entry
erase_entry-Distinct platform p [] d = tt
erase_entry-Distinct platform p (x ∷ ps) d =
    ground (arith, erase_entry-Distinct platform p ps d.1, has_pattern-erase_entry platform p x ps)

remove_entry-Distinct :
    (platform : Platform) (p : Option Bytes) (b : ApiBlocklist)
    → Distinct b.patterns
    → Distinct (remove_entry platform p b).1.patterns
unfolding remove_entry
remove_entry-Distinct platform none b d = d
remove_entry-Distinct platform (some p) b d =
    ground (arith, erase_entry-Distinct platform p b.patterns d)

pub merge_patterns-Distinct : (ps qs : List Bytes) → Distinct ps → Distinct (merge_patterns ps qs)
unfolding merge_patterns
merge_patterns-Distinct ps [] d = d
merge_patterns-Distinct ps (q ∷ qs) d =
    merge_patterns-Distinct (if has_pattern ps q then ps else ps ++ q ∷ []) qs
      (ground (arith, Distinct-append_one ps q d))

load_file-Distinct :
    (path file : Option Bytes) (b : ApiBlocklist)
    → Distinct b.patterns
    → Distinct (load_file path file b).1.patterns
unfolding load_file
load_file-Distinct none file b d = d
load_file-Distinct (some []) file b d = d
load_file-Distinct (some (c ∷ path)) none b d = d
load_file-Distinct (some (c ∷ path)) (some contents) b d =
    merge_patterns-Distinct b.patterns (new_patterns (file_lines contents)) d

-- The calls that change a blocklist.
pub data Call : Type 0 where
  adds removes : Option Bytes → Call
  clears : Call
  loads : Option Bytes → Option Bytes → Call
  registers : Option ℕ → ℕ → Call

unfoldable pub step : Platform → ApiBlocklist → Call → ApiBlocklist
unfolding add_entry remove_entry clear load_file set_blocked_callback
step platform b (adds p) = (add_entry platform p b).1
step platform b (removes p) = (remove_entry platform p b).1
step platform b clears = clear b
step platform b (loads path file) = (load_file path file b).1
step platform b (registers callback user_data) = set_blocked_callback callback user_data b

unfoldable pub run : Platform → ApiBlocklist → List Call → ApiBlocklist
unfolding step
run platform b [] = b
run platform b (c ∷ cs) = run platform (step platform b c) cs

step-Distinct :
    (platform : Platform) (b : ApiBlocklist) (c : Call)
    → Distinct b.patterns
    → Distinct (step platform b c).patterns
unfolding step
step-Distinct platform b (adds p) d = add_entry-Distinct platform p b d
step-Distinct platform b (removes p) d = remove_entry-Distinct platform p b d
step-Distinct platform b clears d = tt
step-Distinct platform b (loads path file) d = load_file-Distinct path file b d
step-Distinct platform b (registers callback user_data) d = d

pub run-Distinct :
    (platform : Platform) (b : ApiBlocklist) (cs : List Call)
    → Distinct b.patterns
    → Distinct (run platform b cs).patterns
unfolding run
run-Distinct platform b [] d = d
run-Distinct platform b (c ∷ cs) d =
    run-Distinct platform (step platform b c) cs (step-Distinct platform b c d)
