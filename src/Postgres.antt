-- ===== src/Postgres.antt =====
-- What the code takes from PostgreSQL: documented behaviour of functions that the repository calls
-- and does not contain (port/pg_bitutils.h, common/int.h).
use pg_batch.Prelude.{ℕ, ◌-◌, ◌%◌, ◌^◌, ◌≡◌, Bool, true, false, Option, some, none, length, ltb}
use pg_batch.Prelude.Int.{ℤ, pos, negsuc, ◌+ℤ◌, ◌-ℤ◌, ◌*ℤ◌}
use pg_batch.Bits.{Word, is_zero, ones, lowest}

-- pg_rightmost_one_pos64: the position of the lowest one of a word that is not zero.
-- pg_popcount64: the number of ones.
pub record PgBitutils : Type 0 where
  pub rightmost_one_pos64 : Word → ℕ
  pub popcount64 : Word → ℕ
  pub rightmost_one_pos64_lem : (w : Word) → is_zero w ≡ false → rightmost_one_pos64 w ≡ lowest w
  pub popcount64_lem : (w : Word) → popcount64 w ≡ length (ones 0 w)

-- The values of an int32: from -2^31 to 2^31 - 1.
abbrev pub fits_int32 : ℤ → Bool
fits_int32 (pos n) = ltb n 0x8000_0000
fits_int32 (negsuc n) = ltb n 0x8000_0000

-- (uint32) of an int32: two's complement.
unfoldable pub to_uint32 : ℤ → ℕ
to_uint32 (pos n) = n % 2 ^ 32
to_uint32 (negsuc n) = 2 ^ 32 - 1 - n % 2 ^ 32

-- pg_add_s32_overflow and the like: the exact result where it fits, else a report of the overflow.
pub record PgInt : Type 0 where
  pub add_s32 : ℤ → ℤ → Option ℤ
  pub sub_s32 : ℤ → ℤ → Option ℤ
  pub mul_s32 : ℤ → ℤ → Option ℤ
  pub add_s32-fits : (a b : ℤ) → fits_int32 (a +ℤ b) ≡ true → add_s32 a b ≡ some (a +ℤ b)
  pub add_s32-overflow : (a b : ℤ) → fits_int32 (a +ℤ b) ≡ false → add_s32 a b ≡ none
  pub sub_s32-fits : (a b : ℤ) → fits_int32 (a -ℤ b) ≡ true → sub_s32 a b ≡ some (a -ℤ b)
  pub sub_s32-overflow : (a b : ℤ) → fits_int32 (a -ℤ b) ≡ false → sub_s32 a b ≡ none
  pub mul_s32-fits : (a b : ℤ) → fits_int32 (a *ℤ b) ≡ true → mul_s32 a b ≡ some (a *ℤ b)
  pub mul_s32-overflow : (a b : ℤ) → fits_int32 (a *ℤ b) ≡ false → mul_s32 a b ≡ none
