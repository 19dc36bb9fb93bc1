-- ===== src/Kernels/Filter/Scalar.antt =====
-- kernels/int4.c: what scalar_compare and not_null_mask compute, bit by bit.
use pg_batch.Prelude.{
  ℕ, zero, suc, ◌+◌, ◌*◌, ◌<◌, ◌≡◌, ◌∙◌, inl, inr, Bool, true, false, not, ◌&&◌, List, none, some,
  arith, length, get_or, ltb, ltb→lt, Bool-cases, get_or-replicate, get_or-beyond, length-replicate,
}
use pg_batch.Prelude.Int.{ℤ}
use pg_batch.Bits.{Word, test_bit, zeros, same}
use pg_batch.Bits.Laws.{same-test_bit}
use pg_batch.Bits.Ones.{
  set_bits, set_bits-ones, has-ones, collect, test_bit-collect, length-collect, ones-AllBelow,
}
use pg_batch.Postgres.{PgBitutils}
use pg_batch.Kernels.Vector.{Int4Vector, datum, packed, row_is_null, row_value}
use pg_batch.Kernels.Mask.{word_mask, test_bit-word_mask}
use pg_batch.Kernels.Compare.{Int4Op, compare}
use pg_batch.Kernels.Filter.{scalar_compare, not_null_loop, not_null_mask, no_null}

no_null-get_or :
    (isnull : List Bool) (n first_row i : ℕ)
    → no_null isnull first_row n ≡ true
    → i < n
    → get_or isnull (first_row + i) false ≡ false
unfolding no_null
no_null-get_or isnull zero first_row i h b = elim b [ ]
no_null-get_or isnull (suc n) first_row zero h b =
    let e : first_row + 0 ≡ first_row = omega arith in rw e (ground arith)
no_null-get_or isnull (suc n) first_row (suc i) h b =
    let e : first_row + suc i ≡ (first_row + 1) + i = omega arith in
    rw e (no_null-get_or isnull n (first_row + 1) i (ground arith) (omega arith))

bit_small : (rows : Word) (i : ℕ) → length rows ≡ 64 → test_bit rows i ≡ true → i < 64
bit_small rows i w on = elim (Bool-cases (ltb i 64)) [
  | inl lt ↦ ltb→lt i 64 lt
  | inr ge ↦ let off = get_or-beyond rows i false (ground arith) in absurd (ground (arith, off))
]

all_kept :
    (isnull : List Bool) (first_row nrows : ℕ) (rows : Word) (i : ℕ)
    → length rows ≡ 64
    → same rows (word_mask nrows 0) ≡ true
    → no_null isnull first_row nrows ≡ true
    → test_bit rows i ≡ test_bit rows i && not (get_or isnull (first_row + i) false)
all_kept isnull first_row nrows rows i w e h = elim (Bool-cases (test_bit rows i)) [
  | inr off ↦ rw off
  | inl on ↦
      let small = bit_small rows i w on in
      let m : test_bit rows i ≡ ltb (0 * 64 + i) nrows =
        same-test_bit rows (word_mask nrows 0) i e ∙ test_bit-word_mask nrows 0 i small in
      rw (on, no_null-get_or isnull nrows first_row i h (ground arith))
]

module _ ⦃pg : PgBitutils⦄ where
  collected :
      (p : ℕ → Bool) (rows : Word) (i : ℕ)
      → length rows ≡ 64
      → test_bit (collect 64 p (zeros 64) (set_bits rows)) i ≡ test_bit rows i && p i
  collected p rows i w = rw (set_bits-ones rows) (
      test_bit-collect 64 p i _ (zeros 64) (ones-AllBelow 64 rows (omega arith))
      ∙ rw (has-ones i rows, get_or-replicate 64 i false))

  pub test_bit-scalar_compare :
      (column : Int4Vector) (first_row : ℕ) (rows : Word) (op : Int4Op) (scalar : ℤ) (i : ℕ)
      → length rows ≡ 64
      → test_bit (scalar_compare column first_row rows op scalar) i
        ≡ test_bit rows i
          && (not (row_is_null column (first_row + i))
              && compare (row_value column (first_row + i)) scalar op)
  unfolding scalar_compare
  test_bit-scalar_compare column first_row rows op scalar i w =
      collected
        (λ b.
          not (row_is_null column (first_row + b))
          && compare (row_value column (first_row + b)) scalar op)
        rows i w

  test_bit-not_null_loop :
      (column : Int4Vector) (first_row : ℕ) (rows : Word) (i : ℕ)
      → length rows ≡ 64
      → test_bit (not_null_loop column first_row rows) i
        ≡ test_bit rows i && not (row_is_null column (first_row + i))
  unfolding not_null_loop
  test_bit-not_null_loop column first_row rows i w =
      collected (λ b. not (row_is_null column (first_row + b))) rows i w

  length-not_null_loop :
      (column : Int4Vector) (first_row : ℕ) (rows : Word)
      → length (not_null_loop column first_row rows) ≡ 64
  unfolding not_null_loop
  length-not_null_loop column first_row rows =
      length-collect 64 _ (set_bits rows) (zeros 64) (length-replicate 64 false)

  -- On every path the mask keeps the rows that are not null.
  pub test_bit-not_null_mask :
      (column : Int4Vector) (first_row nrows : ℕ) (rows : Word) (i : ℕ)
      → length rows ≡ 64
      → test_bit (not_null_mask column first_row nrows rows) i
        ≡ test_bit rows i && not (row_is_null column (first_row + i))
  unfolding not_null_mask
  test_bit-not_null_mask (packed values none offset) first_row nrows rows i w =
      unfold row_is_null in ground arith
  test_bit-not_null_mask (packed values (some validity) offset) first_row nrows rows i w =
      test_bit-not_null_loop (packed values (some validity) offset) first_row rows i w
  test_bit-not_null_mask (datum values isnull) first_row nrows rows i w =
      elim (Bool-cases (same rows (word_mask nrows 0) && no_null isnull first_row nrows)) [
        | inl fast ↦ rw fast (
            unfold row_is_null in
            all_kept isnull first_row nrows rows i w (ground arith) (ground arith))
        | inr slow ↦ rw slow (test_bit-not_null_loop (datum values isnull) first_row rows i w)
      ]

  pub length-not_null_mask :
      (column : Int4Vector) (first_row nrows : ℕ) (rows : Word)
      → length rows ≡ 64
      → length (not_null_mask column first_row nrows rows) ≡ 64
  unfolding not_null_mask
  length-not_null_mask (packed values none offset) first_row nrows rows w = w
  length-not_null_mask (packed values (some validity) offset) first_row nrows rows w =
      length-not_null_loop (packed values (some validity) offset) first_row rows
  length-not_null_mask (datum values isnull) first_row nrows rows w =
      elim (Bool-cases (same rows (word_mask nrows 0) && no_null isnull first_row nrows)) [
        | inl fast ↦ rw fast w
        | inr slow ↦ rw slow (length-not_null_loop (datum values isnull) first_row rows)
      ]
