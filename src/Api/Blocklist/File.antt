-- ===== src/Api/Blocklist/File.antt =====
-- `LoadFile` of source/api/api_blocklist.cpp on a file that holds one pattern to a line.
use radeon_developer_panel.Common.{
  ℕ, ◌≡◌, ap, true, false, ◌||◌, List, [], ◌∷◌, ◌++◌, some, arith, Bytes, ◌==◌, if◌then◌else◌, All,
  same_bytes, same_bytes_iff,
}
use radeon_developer_panel.Api.Blocklist.Text.{file_lines, is_blank}
use radeon_developer_panel.Api.Blocklist.Defaults.{has_pattern}
use radeon_developer_panel.Api.Blocklist.Entries.{
  ApiBlocklist, new_patterns, merge_patterns, load_file,
}
use radeon_developer_panel.Api.Blocklist.Distinct.{Distinct, has_pattern-append}

-- One pattern to a line, each line with its end.
unfoldable pub write_lines : List Bytes → Bytes
write_lines [] = []
write_lines (p ∷ ps) = p ++ 10 ∷ write_lines ps

abbrev EndsWell : Bytes → Type 0
EndsWell [] = ⊥
EndsWell (c ∷ []) = (is_blank c ≡ false) × ((c == 13) ≡ false)
EndsWell (c ∷ d ∷ s) = EndsWell (d ∷ s)

abbrev StartsWell : Bytes → Type 0
StartsWell [] = ⊥
StartsWell (c ∷ s) = (is_blank c ≡ false) × ((c == b'#') ≡ false)

-- A pattern that fits on a line: no blank at either end, no `#` in front, no line end inside and no
-- carriage return at the end.
abbrev pub IsLine : Bytes → Type 0
IsLine p = StartsWell p × EndsWell p × All (λ c. (c == 10) ≡ false) p

has_pattern-same :
    (ps : List Bytes) (p q : Bytes) → same_bytes q p ≡ true → has_pattern ps q ≡ has_pattern ps p
has_pattern-same ps p q h = ap (has_pattern ps) ((same_bytes_iff q p).0 h)

has_pattern-merge_patterns :
    (ps qs : List Bytes) (p : Bytes)
    → has_pattern (merge_patterns ps qs) p ≡ (has_pattern ps p || has_pattern qs p)
unfolding merge_patterns has_pattern
has_pattern-merge_patterns ps [] p = ground arith
has_pattern-merge_patterns ps (q ∷ qs) p = ground (
  arith,
  has_pattern-merge_patterns (if has_pattern ps q then ps else ps ++ q ∷ []) qs p,
  has_pattern-append ps (q ∷ []) p,
  has_pattern-same ps p q,
)

-- An entry is stored after `LoadFile` exactly if it was stored before or a line of the file holds it.
pub has_pattern-load_file :
    (path contents : Bytes) (c : ℕ) (b : ApiBlocklist) (p : Bytes)
    → has_pattern (load_file (some (c ∷ path)) (some contents) b).1.patterns p
      ≡ (has_pattern b.patterns p || has_pattern (new_patterns (file_lines contents)) p)
unfolding load_file
has_pattern-load_file path contents c b p =
    has_pattern-merge_patterns b.patterns (new_patterns (file_lines contents)) p
