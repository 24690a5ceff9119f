-- ===== src/Api/Stream/Buffer.antt =====
-- The buffers of source/api/api_trace_io.cpp: the growing of the capacity, and what copies and
-- reallocations keep.
use Prim.Native.Nat.{max}
use radeon_developer_panel.Common.{
  ℕ, zero, suc, ◌+◌, ◌-◌, ◌*◌, ◌%◌, ◌≤◌, ◌<◌, ◌≡◌, refl, ap, ◌∙◌, ◌⊎◌, inl, inr, [], ◌∷◌, ◌++◌,
  some, leb, leb→le, Bytes, length, take, drop, arith, length-append, length-take, Bool-cases,
}
use radeon_developer_panel.Api.Stream.Memory.{
  word, half_word, fresh_bytes, api_realloc, grow, copy_to,
}
use radeon_developer_panel.Api.Stream.File.{overwrite}

-- The loop of `Write` ends, with a capacity past the end of the write.
pub grow_total :
    (fuel next capacity : ℕ)
    → 0 < capacity
    → next < half_word
    → next + 1 < capacity + fuel
    → 0 < fuel
    → (c : ℕ) × (grow fuel next capacity ≡ some c)
      × (next < c)
      × (capacity ≤ c)
      × ((capacity ≤ next) ⊎ (c ≡ capacity))
unfolding grow
grow_total zero next capacity p h f q = absurd (omega arith)
grow_total (suc fuel) next capacity p h f q = elim (Bool-cases (leb capacity next)) [
  | inl e ↦
      let le : capacity ≤ next = leb→le capacity next e in
      let same : (capacity * 2) % word ≡ capacity * 2 = omega arith in
      let (c, eq, past, more, _) =
        grow_total fuel next ((capacity * 2) % word) (omega arith) h (omega arith) (omega arith) in
      (c, rw e eq, past, omega arith, inl le)
  | inr e ↦ (capacity, rw e, ground arith, omega arith, inr refl)
]

drop-nil : (n : ℕ) → drop {A = ℕ} n [] ≡ []
drop-nil zero = refl
drop-nil (suc n) = refl

take-copy_to_zero :
    (s : ℕ) (bytes buffer : Bytes)
    → s ≤ length buffer
    → length bytes ≤ length buffer
    → take (max s (length bytes)) (copy_to 0 bytes buffer)
      ≡ bytes ++ drop (length bytes) (take s buffer)
unfolding copy_to
take-copy_to_zero zero [] [] h k = refl
take-copy_to_zero zero (x ∷ bytes) [] h k = absurd (omega arith)
take-copy_to_zero (suc s) bytes [] h k = elim h [ ]
take-copy_to_zero s [] (b ∷ buffer) h k = let e : max s 0 ≡ s = omega arith in rw e
take-copy_to_zero zero (x ∷ bytes) (b ∷ buffer) h k =
    let e : max 0 (suc (length bytes)) ≡ suc (max 0 (length bytes)) = omega arith in
    rw e (
      ap (λ t. x ∷ t) (take-copy_to_zero zero bytes buffer (omega arith) (omega arith))
      ∙ ap (λ t. x ∷ (bytes ++ t)) (drop-nil (length bytes)))
take-copy_to_zero (suc s) (x ∷ bytes) (b ∷ buffer) h k =
    let e : max (suc s) (suc (length bytes)) ≡ suc (max s (length bytes)) = omega arith in
    rw e (ap (λ t. x ∷ t) (take-copy_to_zero s bytes buffer (omega arith) (omega arith)))

-- What a write leaves of the bytes behind the head.
pub take-copy_to :
    (i s : ℕ) (bytes buffer : Bytes)
    → i ≤ s
    → s ≤ length buffer
    → i + length bytes ≤ length buffer
    → take (max s (i + length bytes)) (copy_to i bytes buffer) ≡ overwrite i bytes (take s buffer)
unfolding copy_to overwrite
take-copy_to zero s bytes buffer h k l =
    let e : max s (0 + length bytes) ≡ max s (length bytes) = omega arith in
    rw e (take-copy_to_zero s bytes buffer k (omega arith))
take-copy_to (suc i) zero bytes buffer h k l = absurd (omega arith)
take-copy_to (suc i) (suc s) bytes [] h k l = absurd (omega arith)
take-copy_to (suc i) (suc s) bytes (b ∷ buffer) h k l =
    let e : max (suc s) (suc i + length bytes) ≡ suc (max s (i + length bytes)) = omega arith in
    rw e (ap (λ t. b ∷ t) (take-copy_to i s bytes buffer (omega arith) (omega arith) (omega arith)))

pub length-copy_to :
    (i : ℕ) (bytes buffer : Bytes) → length (copy_to i bytes buffer) ≡ length buffer
unfolding copy_to
length-copy_to i bytes [] = refl
length-copy_to zero [] (b ∷ buffer) = refl
length-copy_to zero (x ∷ bytes) (b ∷ buffer) = ap suc (length-copy_to zero bytes buffer)
length-copy_to (suc i) bytes (b ∷ buffer) = ap suc (length-copy_to i bytes buffer)

pub length-fresh_bytes : (fresh : ℕ → ℕ) (i n : ℕ) → length (fresh_bytes fresh i n) ≡ n
unfolding fresh_bytes
length-fresh_bytes fresh i zero = refl
length-fresh_bytes fresh i (suc n) = ap suc (length-fresh_bytes fresh (suc i) n)

pub length-api_realloc :
    (fresh : ℕ → ℕ) (buffer : Bytes) (n : ℕ) → length (api_realloc fresh buffer n) ≡ n
unfolding api_realloc
length-api_realloc fresh buffer n = omega (
  arith,
  length-append (take n buffer) (fresh_bytes fresh (length buffer) (n - length buffer)),
  length-take n buffer,
  length-fresh_bytes fresh (length buffer) (n - length buffer),
)

take-append-take :
    (s n : ℕ) (buffer rest : Bytes)
    → s ≤ n
    → s ≤ length buffer
    → take s (take n buffer ++ rest) ≡ take s buffer
take-append-take zero n buffer rest h k = refl
take-append-take (suc s) n [] rest h k = elim k [ ]
take-append-take (suc s) zero (b ∷ buffer) rest h k = elim h [ ]
take-append-take (suc s) (suc n) (b ∷ buffer) rest h k =
    ap (λ t. b ∷ t) (take-append-take s n buffer rest (omega arith) (omega arith))

pub take-api_realloc :
    (fresh : ℕ → ℕ) (s n : ℕ) (buffer : Bytes)
    → s ≤ n
    → s ≤ length buffer
    → take s (api_realloc fresh buffer n) ≡ take s buffer
unfolding api_realloc
take-api_realloc fresh s n buffer h k = take-append-take s n buffer _ h k

take-take : (n s : ℕ) (buffer : Bytes) → n ≤ s → take n (take s buffer) ≡ take n buffer
take-take zero s buffer h = refl
take-take (suc n) zero buffer h = elim h [ ]
take-take (suc n) (suc s) [] h = refl
take-take (suc n) (suc s) (b ∷ buffer) h = ap (λ t. b ∷ t) (take-take n s buffer (omega arith))

-- Bytes that are read before the end do not depend on what stands behind it.
pub take-drop-take :
    (n i s : ℕ) (buffer : Bytes)
    → i + n ≤ s
    → take n (drop i (take s buffer)) ≡ take n (drop i buffer)
take-drop-take n zero s buffer h = take-take n s buffer (omega arith)
take-drop-take n (suc i) zero buffer h = absurd (omega arith)
take-drop-take n (suc i) (suc s) [] h = refl
take-drop-take n (suc i) (suc s) (b ∷ buffer) h = take-drop-take n i s buffer (omega arith)
