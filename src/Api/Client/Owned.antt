-- ===== src/Api/Client/Owned.antt =====
-- Connections with the processes that own them, against the ids that `ClientManager`
-- (source/api/client_manager.cpp) keeps.
use radeon_developer_panel.Common.{
  has_id, insert_id, erase_id, ℕ, ◌≤◌, ◌≡◌, refl, ap, true, false, List, [], ◌∷◌, ◌==◌,
  if◌then◌else◌, arith,
}

abbrev pub remove_owner : ℕ → List (ℕ × ℕ) → List (ℕ × ℕ)
remove_owner i [] = []
remove_owner i (o ∷ os) = if o.0 == i then remove_owner i os else o ∷ remove_owner i os

-- The ids are kept, and the processes are all the given one.
abbrev pub Owned : List ℕ → ℕ → List (ℕ × ℕ) → Type 0
Owned ids pid [] = Unit
Owned ids pid (o ∷ os) = (has_id ids o.0 ≡ true) × (o.1 ≡ pid) × (1 ≤ o.1) × Owned ids pid os

pub has_id-insert_id :
    (i k : ℕ) (ids : List ℕ) → has_id (insert_id i ids) k ≡ (if i == k then true else has_id ids k)
unfolding insert_id
has_id-insert_id i k ids =
    let same : i ≡ k → has_id ids i ≡ has_id ids k = λ e. ap (has_id ids) e in ground (arith, same)

pub has_id-erase_id :
    (i k : ℕ) (ids : List ℕ) → (k == i) ≡ false → has_id (erase_id i ids) k ≡ has_id ids k
unfolding erase_id
has_id-erase_id i k [] h = refl
has_id-erase_id i k (j ∷ ids) h = ground (arith, has_id-erase_id i k ids h)

pub Owned-insert_id :
    (i pid : ℕ) (ids : List ℕ) (os : List (ℕ × ℕ))
    → Owned ids pid os
    → Owned (insert_id i ids) pid os
Owned-insert_id i pid ids [] h = tt
Owned-insert_id i pid ids (o ∷ os) h =
    ground (arith, has_id-insert_id i o.0 ids, Owned-insert_id i pid ids os h.3)

pub Owned-erase_id :
    (i pid : ℕ) (ids : List ℕ) (os : List (ℕ × ℕ))
    → Owned ids pid os
    → Owned (erase_id i ids) pid (remove_owner i os)
Owned-erase_id i pid ids [] h = tt
Owned-erase_id i pid ids (o ∷ os) h =
    ground (arith, has_id-erase_id i o.0 ids, Owned-erase_id i pid ids os h.3)

pub Owned-no_id : (pid q : ℕ) (os : List (ℕ × ℕ)) → Owned [] pid os → Owned [] q os
Owned-no_id pid q [] h = tt
Owned-no_id pid q (o ∷ os) h = ground arith

pub Owned-no_process : (q : ℕ) (ids : List ℕ) (os : List (ℕ × ℕ)) → Owned ids 0 os → Owned ids q os
Owned-no_process q ids [] h = tt
Owned-no_process q ids (o ∷ os) h = ground arith
