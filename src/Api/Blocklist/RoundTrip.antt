-- ===== src/Api/Blocklist/RoundTrip.antt =====
-- Calls of the blocklist (source/api/api_blocklist.cpp) that undo or repeat one another.
use radeon_developer_panel.Common.{
  ℕ, ◌≡◌, refl, ap, true, false, List, [], ◌∷◌, ◌++◌, some, arith, Bytes, same_bytes_refl,
  if◌then◌else◌, All,
}
use radeon_developer_panel.Api.Result.{success}
use radeon_developer_panel.Api.Blocklist.Text.{file_lines}
use radeon_developer_panel.Api.Blocklist.Defaults.{Platform, has_pattern}
use radeon_developer_panel.Api.Blocklist.Entries.{
  ApiBlocklist, find_entry, erase_entry, add_entry, remove_entry, new_patterns, merge_patterns,
  load_file,
}
use radeon_developer_panel.Api.Blocklist.Distinct.{
  same_entry_refl, has_pattern-append, find_entry-append_one,
}

erase_entry-append_one :
    (platform : Platform) (p : Bytes) (ps : List Bytes)
    → find_entry platform p ps ≡ false
    → erase_entry platform p (ps ++ p ∷ []) ≡ ps
unfolding find_entry erase_entry
erase_entry-append_one platform p [] h = rw (same_entry_refl platform p)
erase_entry-append_one platform p (x ∷ ps) h = ground (arith, erase_entry-append_one platform p ps)

-- `RemoveEntry` takes back what `AddEntry` stored: if no entry matched the pattern before, both
-- succeed and the list is as it was, its order included.
pub remove_entry-add_entry :
    (platform : Platform) (c : ℕ) (p : Bytes) (b : ApiBlocklist)
    → find_entry platform (c ∷ p) b.patterns ≡ false
    → remove_entry platform (some (c ∷ p)) (add_entry platform (some (c ∷ p)) b).1 ≡ (success, b)
unfolding add_entry remove_entry
remove_entry-add_entry platform c p b h = ground (
  arith,
  find_entry-append_one platform (c ∷ p) b.patterns,
  erase_entry-append_one platform (c ∷ p) b.patterns h,
)

-- Patterns that are stored already are passed over.
merge_patterns-stored :
    (ps qs : List Bytes) → All (λ q. has_pattern ps q ≡ true) qs → merge_patterns ps qs ≡ ps
unfolding merge_patterns
merge_patterns-stored ps [] h = refl
merge_patterns-stored ps (q ∷ qs) h = rw h.0 (merge_patterns-stored ps qs h.1)

has_pattern-merge_patterns :
    (ps qs : List Bytes) (p : Bytes)
    → has_pattern ps p ≡ true
    → has_pattern (merge_patterns ps qs) p ≡ true
unfolding merge_patterns
has_pattern-merge_patterns ps [] p h = h
has_pattern-merge_patterns ps (q ∷ qs) p h =
    has_pattern-merge_patterns (if has_pattern ps q then ps else ps ++ q ∷ []) qs p
      (ground (arith, has_pattern-append ps (q ∷ []) p))

has_pattern-one : (p : Bytes) → has_pattern (p ∷ []) p ≡ true
unfolding has_pattern
has_pattern-one p = rw (same_bytes_refl p)

merge_patterns-has_pattern :
    (ps qs : List Bytes) → All (λ q. has_pattern (merge_patterns ps qs) q ≡ true) qs
unfolding merge_patterns
merge_patterns-has_pattern ps [] = tt
merge_patterns-has_pattern ps (q ∷ qs) =
    let ps' = if has_pattern ps q then ps else ps ++ q ∷ [] in
    (
      has_pattern-merge_patterns ps' qs q
          (ground (arith, has_pattern-append ps (q ∷ []) q, has_pattern-one q)),
      merge_patterns-has_pattern ps' qs,
    )

-- Loading the same file a second time succeeds and changes nothing.
pub load_file_twice :
    (path contents : Bytes) (c : ℕ) (b : ApiBlocklist)
    → let b' = (load_file (some (c ∷ path)) (some contents) b).1 in
      load_file (some (c ∷ path)) (some contents) b' ≡ (success, b')
unfolding load_file
load_file_twice path contents c b =
    let qs = new_patterns (file_lines contents) in
    let ps = merge_patterns b.patterns qs in
    ap (λ (l : List Bytes). (success, record b { patterns = l }))
      (merge_patterns-stored ps qs (merge_patterns-has_pattern b.patterns qs))
