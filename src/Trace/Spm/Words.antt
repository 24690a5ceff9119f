-- ===== src/Trace/Spm/Words.antt =====
-- `ReadValue` and `WriteValue` of source/trace/src/counters/rgp_derived_spm_database.cpp. The machine is
-- little-endian, as every machine that the program is built for; a read or a write out of bounds gives
-- nothing.
use radeon_developer_panel.Common.{
  ℕ, zero, suc, ◌+◌, ◌*◌, ◌/◌, ◌%◌, ◌<◌, ◌≡◌, refl, ap, [], ◌∷◌, ◌++◌, Option, none, some, true,
  Bytes, length, take, drop, leb, if◌then◌else◌, arith,
}

-- The bytes of a number in memory, of which the low ones are kept.
unfoldable pub word_bytes : (w : ℕ) → ℕ → Bytes
word_bytes zero v = []
word_bytes (suc w) v = v % 256 ∷ word_bytes w (v / 256)

-- The number that bytes in memory stand for.
unfoldable pub word_of : Bytes → ℕ
word_of [] = 0
word_of (b ∷ bs) = b + 256 * word_of bs

-- How many numbers `w` bytes can hold.
abbrev pub bound : ℕ → ℕ
bound zero = 1
bound (suc w) = 256 * bound w

-- `ReadValue<T>` of one value: the value, and what is left after it.
unfoldable pub read_value : (w : ℕ) → Bytes → Option (ℕ × Bytes)
unfolding word_of
read_value w bytes =
    if leb w (length bytes) then some (word_of (take w bytes), drop w bytes) else none

pub length-word_bytes : (w v : ℕ) → length (word_bytes w v) ≡ w
unfolding word_bytes
length-word_bytes zero v = refl
length-word_bytes (suc w) v = ap suc (length-word_bytes w (v / 256))

pub word_of-word_bytes : (w v : ℕ) → v < bound w → word_of (word_bytes w v) ≡ v
unfolding word_bytes word_of
word_of-word_bytes zero v h = omega arith
word_of-word_bytes (suc w) v h = omega (arith, word_of-word_bytes w (v / 256) (omega arith))

take-word_bytes : (w v : ℕ) (rest : Bytes) → take w (word_bytes w v ++ rest) ≡ word_bytes w v
unfolding word_bytes
take-word_bytes zero v rest = refl
take-word_bytes (suc w) v rest = ap (λ bs. v % 256 ∷ bs) (take-word_bytes w (v / 256) rest)

drop-word_bytes : (w v : ℕ) (rest : Bytes) → drop w (word_bytes w v ++ rest) ≡ rest
unfolding word_bytes
drop-word_bytes zero v rest = refl
drop-word_bytes (suc w) v rest = drop-word_bytes w (v / 256) rest

fits-word_bytes : (w v : ℕ) (rest : Bytes) → leb w (length (word_bytes w v ++ rest)) ≡ true
unfolding word_bytes
fits-word_bytes zero v rest = ground arith
fits-word_bytes (suc w) v rest = ground (arith, fits-word_bytes w (v / 256) rest)

-- A value that is written is read back.
pub read_value-word_bytes :
    (w v : ℕ) (rest : Bytes) → v < bound w → read_value w (word_bytes w v ++ rest) ≡ some (v, rest)
unfolding read_value
read_value-word_bytes w v rest h =
    rw
      (
        fits-word_bytes w v rest,
        take-word_bytes w v rest,
        drop-word_bytes w v rest,
        word_of-word_bytes w v h,
      )
      refl
