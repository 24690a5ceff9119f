-- ===== src/Common/Sets.antt =====
-- Sets of numbers, as `unordered_set` keeps them, in lists.
use Prim.Native.Nat.{ℕ, ◌+◌, ◌-◌}
use mathlib.Core.Path.{◌≡◌, refl}
use mathlib.Core.Bool.{Bool, true, false}
use mathlib.Core.List.{List, [], ◌∷◌, ◌++◌}
use native.Mathlib.Omega.{arith}
use radeon_developer_panel.Common.Tests.{◌==◌, ltb, if◌then◌else◌}

-- `insert` and `erase` of an `unordered_set`.
abbrev pub has_id : List ℕ → ℕ → Bool
has_id [] i = false
has_id (j ∷ js) i = if j == i then true else has_id js i

unfoldable pub insert_id : ℕ → List ℕ → List ℕ
insert_id i js = if has_id js i then js else i ∷ js

unfoldable pub erase_id : ℕ → List ℕ → List ℕ
erase_id i [] = []
erase_id i (j ∷ js) = if j == i then js else j ∷ erase_id i js

abbrev pub count_id : List ℕ → ℕ → ℕ
count_id [] f = 0
count_id (g ∷ gs) f = (if g == f then 1 else 0) + count_id gs f

pub has_id-count_id : (gs : List ℕ) (f : ℕ) → has_id gs f ≡ ltb 0 (count_id gs f)
has_id-count_id [] f = refl
has_id-count_id (g ∷ gs) f = ground (arith, has_id-count_id gs f)

pub count_id-erase_id :
    (gs : List ℕ) (g f : ℕ)
    → count_id (erase_id g gs) f ≡ (if g == f then count_id gs f - 1 else count_id gs f)
unfolding erase_id
count_id-erase_id [] g f = ground arith
count_id-erase_id (h ∷ gs) g f = ground (arith, count_id-erase_id gs g f)

pub count_id-append_one :
    (ls : List ℕ) (k l : ℕ) → count_id (ls ++ k ∷ []) l ≡ count_id ls l + (if k == l then 1 else 0)
count_id-append_one [] k l = omega arith
count_id-append_one (j ∷ ls) k l = omega (arith, count_id-append_one ls k l)
