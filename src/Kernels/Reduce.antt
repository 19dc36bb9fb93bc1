-- ===== src/Kernels/Reduce.antt =====
-- kernels/int4.c: count, sum, minimum and maximum of the selected values that are not null.
-- A batch has fewer than 2^31 rows, so that the int64 sum of int32 values cannot wrap.
pub mod Steps
pub mod Spec
use pg_batch.Prelude.{
  ℕ, zero, suc, ◌+◌, ◌-◌, ◌*◌, Bool, true, false, not, ◌&&◌, ◌||◌, List, [], ◌∷◌, foldl, ltb, ◌==◌,
  if◌then◌else◌, min as least,
}
use pg_batch.Prelude.Int.{ℤ, pos, ◌+ℤ◌, ltb_ℤ}
use pg_batch.Bits.{Word, is_zero, bit_and, same}
use pg_batch.Bits.Ones.{set_bits, set_bits_decrement}
use pg_batch.Postgres.{PgBitutils}
use pg_batch.Batch.Selection.{Selection}
use pg_batch.Kernels.Vector.{Int4Vector, row_value}
use pg_batch.Kernels.Mask.{word_mask}
use pg_batch.Kernels.Filter.{not_null_mask}

-- The bits of `flags`.
pub record Flags : Type 0 where
  pub count : Bool
  pub sum : Bool
  pub min : Bool
  pub max : Bool

pub record Reduction : Type 0 where
  pub count : ℕ
  pub sum : ℤ
  pub min : ℤ
  pub max : ℤ
  pub has_value : Bool

-- MemSet(result, 0, sizeof(*result))
abbrev pub cleared : Reduction
cleared = record { count = 0; sum = pos 0; min = pos 0; max = pos 0; has_value = false }

pub reduce_value : Flags → Reduction → ℤ → Reduction
reduce_value flags r value =
    let sum = if flags.sum then r.sum +ℤ value else r.sum in
    if not r.has_value
    then record r {
      sum = sum;
      min = if flags.min then value else r.min;
      max = if flags.max then value else r.max;
      has_value = true;
    }
    else record r {
      sum = sum;
      min = if flags.min && ltb_ℤ value r.min then value else r.min;
      max = if flags.max && ltb_ℤ r.max value then value else r.max;
    }

-- `for (row = first; row < first + n; row++)`
pub range : ℕ → ℕ → List ℕ
range first zero = []
range first (suc n) = first ∷ range (first + 1) n

module _ ⦃pg : PgBitutils⦄ where
  -- Both layouts add the values of the same rows: all of them in order, or those of the set bits.
  pub reduce_sum : Int4Vector → ℕ → ℕ → Word → ℤ
  unfolding range
  reduce_sum column first_row nrows rows =
      if same rows (word_mask nrows 0)
      then foldl (λ sum row. sum +ℤ row_value column (first_row + row)) (pos 0) (range 0 nrows)
      else foldl (λ sum bitno. sum +ℤ row_value column (first_row + bitno)) (pos 0)
          (set_bits_decrement rows)

  -- The loop's body after the null rows are masked out.
  pub reduce_nonnull : Int4Vector → Flags → ℕ → ℕ → Word → Reduction → Reduction
  reduce_nonnull column flags nrows word rows result =
      let first_row = word * 64 in
      let word_nrows = least 64 (nrows - first_row) in
      let counted = record result {
        count = if flags.count then result.count + pg.popcount64 rows else result.count;
      } in
      if not (flags.sum || flags.min || flags.max)
      then record counted { has_value = true }
      else if flags.sum && not (flags.min || flags.max)
      then record counted {
        sum = counted.sum +ℤ reduce_sum column first_row word_nrows rows;
        has_value = true;
      }
      else if same rows (word_mask nrows word)
      then foldl (λ r row. reduce_value flags r (row_value column row)) counted
          (range first_row word_nrows)
      else foldl (λ r bitno. reduce_value flags r (row_value column (first_row + bitno))) counted
          (set_bits rows)

  pub reduce_word : Int4Vector → Flags → ℕ → ℕ → Word → Reduction → Reduction
  reduce_word column flags nrows word w result =
      let rows = bit_and w (word_mask nrows word) in
      let nonnull =
        bit_and rows (not_null_mask column (word * 64) (least 64 (nrows - word * 64)) rows) in
      if is_zero rows
      then result
      else if is_zero nonnull
      then result
      else reduce_nonnull column flags nrows word nonnull result

  pub reduce_words : Int4Vector → Flags → ℕ → ℕ → List Word → Reduction → Reduction
  reduce_words column flags nrows word [] result = result
  reduce_words column flags nrows word (w ∷ ws) result =
      reduce_words column flags nrows (word + 1) ws (reduce_word column flags nrows word w result)

  -- pg_batch_reduce_int4
  pub reduce_int4 : Int4Vector → Selection → Flags → Reduction
  unfolding reduce_words reduce_word reduce_nonnull
  reduce_int4 column s flags = reduce_words column flags s.nrows 0 s.words cleared
