-- ===== src/Kernels/Arithmetic.antt =====
-- kernels/int4.c: checked int4 arithmetic, on two values and on the selected rows of a column.
pub mod Exact
pub mod Cells
pub mod Rows
use pg_batch.Prelude.{
  ℕ, zero, suc, ◌+◌, ◌*◌, ◌/◌, ◌%◌, Bool, true, false, List, [], ◌∷◌, ◌++◌, Option, none, some,
  get_or, set, drop, replicate, if◌then◌else◌, ◌&&◌, ltb, ◌==◌,
}
use pg_batch.Prelude.Int.{ℤ, pos, negsuc, ◌-ℤ◌}
use pg_batch.Prelude.Result.{Result, ok, err, ◌>>=◌, fold_result}
use pg_batch.Bits.{Word, bit_and, bit_or, one_at, zeros}
use pg_batch.Bits.Ones.{set_bits_decrement}
use pg_batch.Postgres.{PgBitutils, PgInt}
use pg_batch.Batch.Selection.{Selection}
use pg_batch.Kernels.Vector.{Int4Vector, row_is_null, row_value}
use pg_batch.Kernels.Mask.{word_mask}
use pg_batch.Kernels.Compare.{eqb_ℤ}

pub data ArithmeticOp : Type 0 where
  add subtract multiply divide modulo negate : ArithmeticOp

-- ERRCODE_DIVISION_BY_ZERO and ERRCODE_NUMERIC_VALUE_OUT_OF_RANGE
pub data ArithmeticError : Type 0 where
  division_by_zero out_of_range : ArithmeticError

-- Minus a natural number.
abbrev pub neg : ℕ → ℤ
neg zero = pos 0
neg (suc n) = negsuc n

-- C's `/` and `%` on integers: towards zero, and the remainder has the sign of the dividend.
pub quotient : ℤ → ℤ → ℤ
quotient (pos a) (pos b) = pos (a / b)
quotient (pos a) (negsuc b) = neg (a / suc b)
quotient (negsuc a) (pos b) = neg (suc a / b)
quotient (negsuc a) (negsuc b) = pos (suc a / suc b)

pub remainder : ℤ → ℤ → ℤ
remainder (pos a) (pos b) = pos (a % b)
remainder (pos a) (negsuc b) = pos (a % suc b)
remainder (negsuc a) (pos b) = neg (suc a % b)
remainder (negsuc a) (negsuc b) = neg (suc a % suc b)

-- PG_INT32_MIN
abbrev pub int32_min : ℤ
int32_min = negsuc 0x7fff_ffff

-- `if (overflow) goto overflow; return result;`
abbrev pub or_overflow : Option ℤ → Result ArithmeticError ℤ
or_overflow none = err out_of_range
or_overflow (some r) = ok r

module _ ⦃int : PgInt⦄ where
  pub int4_arithmetic : ℤ → ℤ → ArithmeticOp → Result ArithmeticError ℤ
  int4_arithmetic left right add = or_overflow (int.add_s32 left right)
  int4_arithmetic left right subtract = or_overflow (int.sub_s32 left right)
  int4_arithmetic left right multiply = or_overflow (int.mul_s32 left right)
  int4_arithmetic left right divide =
      if eqb_ℤ right (pos 0)
      then err division_by_zero
      else if eqb_ℤ right (negsuc 0) && eqb_ℤ left int32_min
      then err out_of_range
      else ok (quotient left right)
  int4_arithmetic left right modulo =
      if eqb_ℤ right (pos 0)
      then err division_by_zero
      else ok (if eqb_ℤ right (negsuc 0) then pos 0 else remainder left right)
  int4_arithmetic left right negate =
      if eqb_ℤ left int32_min then err out_of_range else ok (pos 0 -ℤ left)

-- The caller's two output arrays.
pub record Output : Type 0 where
  pub values : List ℤ
  pub validity : List Word

-- validity[row / 8] |= (uint8) 1 << (row % 8)
pub set_valid : List Word → ℕ → List Word
set_valid validity row =
    set validity (row / 8) (bit_or (get_or validity (row / 8) []) (one_at 8 (row % 8)))

-- MemSet(validity, 0, n)
pub clear_bytes : List Word → ℕ → List Word
clear_bytes validity n = replicate n (zeros 8) ++ drop n validity

module _ ⦃int : PgInt⦄ (input : Int4Vector) (op : ArithmeticOp) (scalar : ℤ)
    (scalar_on_left : Bool) where
  -- The loop's body for one row.
  pub arithmetic_row : ℕ → Output → Result ArithmeticError Output
  arithmetic_row row out =
      let value = row_value input row in
      let left = if scalar_on_left then scalar else value in
      let right = if scalar_on_left then value else scalar in
      if row_is_null input row
      then ok out
      else (int4_arithmetic left right op >>= λ r.
          ok (record { values = set out.values row r; validity = set_valid out.validity row }))

  module _ ⦃pg : PgBitutils⦄ where
    arithmetic_words : ℕ → ℕ → List Word → Output → Result ArithmeticError Output
    arithmetic_words nrows word [] out = ok out
    arithmetic_words nrows word (w ∷ ws) out =
        fold_result (λ bitno. arithmetic_row (word * 64 + bitno))
          (set_bits_decrement (bit_and w (word_mask nrows word))) out
        >>= arithmetic_words nrows (word + 1) ws

    -- pg_batch_int4_arithmetic_scalar
    pub arithmetic_scalar : Selection → Output → Result ArithmeticError Output
    unfolding arithmetic_words
    arithmetic_scalar s out =
        arithmetic_words s.nrows 0 s.words
          (record out { validity = clear_bytes out.validity ((s.nrows + 7) / 8) })
