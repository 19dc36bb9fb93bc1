-- ===== src/Kernels/Arithmetic/Cells.antt =====
-- include/pg_batch/vector.h, kernels/int4.c: the rows of a column as SQL sees them, and the validity map
-- that a kernel writes.
use pg_batch.Prelude.{
  ℕ, ◌+◌, ◌/◌, ◌%◌, ◌^◌, ◌≤◌, ◌<◌, ◌≡◌, ap, ◌∙◌, inl, inr, false, ◌||◌, List, [], Option, none,
  some, arith, length, get_or, drop, replicate, ◌==◌, ==_iff, if◌then◌else◌, Bool-cases, length-set,
  get_or-set_self, get_or-set_ne, length-append, length-replicate, get_or-replicate,
  get_or-replicate_lt, get_or-append_lt,
}
use pg_batch.Prelude.Int.{ℤ, pos}
use pg_batch.Prelude.Result.{Result, ok, err}
use pg_batch.Bits.{Word, test_bit, bit_or, one_at, zeros}
use pg_batch.Bits.Laws.{test_bit-or, test_bit-one_at}
use pg_batch.Kernels.Vector.{
  Int4Vector, packed, row_is_null, row_value, validity_bit, row_is_null-packed,
}
use pg_batch.Kernels.Arithmetic.{ArithmeticError, Output, set_valid, clear_bytes}

-- A row of a column as SQL sees it: null, or a value.
abbrev pub cell : Int4Vector → ℕ → Option ℤ
cell column row = if row_is_null column row then none else some (row_value column row)

-- The column that the two output arrays are.
abbrev pub as_column : Output → Int4Vector
as_column out = packed out.values (some out.validity) 0

pub length-set_valid :
    (validity : List Word) (k : ℕ) → length (set_valid validity k) ≡ length validity
unfolding set_valid
length-set_valid validity k =
    length-set validity (k / 8) (bit_or (get_or validity (k / 8) []) (one_at 8 (k % 8)))

pub validity_bit-set_valid :
    (validity : List Word) (k row : ℕ)
    → k / 8 < length validity
    → validity_bit (set_valid validity k) row ≡ validity_bit validity row || (row == k)
unfolding set_valid
validity_bit-set_valid validity k row h = elim (Bool-cases (row / 8 == k / 8)) [
  | inl e ↦
      let same : row / 8 ≡ k / 8 = (==_iff (row / 8) (k / 8)).0 e in
      rw
        (
          same,
          get_or-set_self validity (k / 8) (bit_or (get_or validity (k / 8) []) (one_at 8 (k % 8)))
              [] h,
        )
        (test_bit-or (get_or validity (k / 8) []) (one_at 8 (k % 8)) (row % 8)
          ∙ rw (test_bit-one_at 8 (k % 8) (row % 8) (omega arith))
              (ap (λ b. test_bit (get_or validity (k / 8) []) (row % 8) || b) (ground arith)))
  | inr n ↦
      rw
        (get_or-set_ne validity (k / 8) (row / 8)
          (bit_or (get_or validity (k / 8) []) (one_at 8 (k % 8))) [] (ground arith))
        (ground arith)
]

-- The arrays are long enough for the rows of the batch.
pub record HasRoom (nrows : ℕ) (out : Output) : Type 0 where
  pub values : nrows ≤ length out.values
  pub validity : (nrows + 7) / 8 ≤ length out.validity

pub cell-as_column :
    (out : Output) (row : ℕ)
    → row + 1 ≤ 2 ^ 31
    → cell (as_column out) row
      ≡ (if validity_bit out.validity row then some (get_or out.values row (pos 0)) else none)
cell-as_column out row h =
    let e : 0 + row ≡ row = omega arith in
    rw (row_is_null-packed out.values out.validity 0 row (omega arith), e)
      (unfold row_value in rw e (ground arith))

pub cleared :
    (validity : List Word) (n row : ℕ)
    → row / 8 < n
    → validity_bit (clear_bytes validity n) row ≡ false
unfolding clear_bytes
cleared validity n row h =
    ap (λ w. test_bit w (row % 8))
      (get_or-append_lt (replicate n (zeros 8)) (drop n validity) (row / 8) []
          (rw (length-replicate n (zeros 8)) h)
        ∙ get_or-replicate_lt n (row / 8) (zeros 8) [] h)
    ∙ get_or-replicate 8 (row % 8) false

pub clear-HasRoom :
    (nrows : ℕ) (out : Output)
    → HasRoom nrows out
    → HasRoom nrows (record out { validity = clear_bytes out.validity ((nrows + 7) / 8) })
clear-HasRoom nrows out room = record {
  values = room.values;
  validity =
      unfold clear_bytes in
      rw
        (
          length-append (replicate ((nrows + 7) / 8) (zeros 8))
              (drop ((nrows + 7) / 8) out.validity),
          length-replicate ((nrows + 7) / 8) (zeros 8),
        )
        (omega arith);
}

-- A cleared column is null throughout.
pub cell-clear :
    (nrows row : ℕ) (out : Output)
    → nrows ≤ 2 ^ 31
    → row < nrows
    → cell (as_column (record out { validity = clear_bytes out.validity ((nrows + 7) / 8) })) row
      ≡ none
cell-clear nrows row out small h =
    cell-as_column _ row (omega arith)
    ∙ rw (cleared out.validity ((nrows + 7) / 8) row (omega arith))

abbrev pub KeepsRoom : ℕ → Result ArithmeticError Output → Type 0
KeepsRoom nrows (ok out) = HasRoom nrows out
KeepsRoom nrows (err e) = Unit
