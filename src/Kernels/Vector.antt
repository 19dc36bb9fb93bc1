-- ===== src/Kernels/Vector.antt =====
-- include/pg_batch/vector.h: borrowed views of one int4 column.
-- Datum values are held as the int32 that DatumGetInt32 reads from them. A read outside an array,
-- which is undefined in C, gives zero here.
use pg_batch.Prelude.{
  ℕ, ◌+◌, ◌/◌, ◌%◌, ◌^◌, ◌≤◌, ◌≡◌, Bool, true, false, not, List, [], Option, none, some, get_or,
  ltb, if◌then◌else◌, arith,
}
use pg_batch.Prelude.Int.{ℤ, pos}
use pg_batch.Bits.{Word, test_bit}

pub data Int4Vector : Type 0 where
  datum : (values : List ℤ) (isnull : List Bool) → Int4Vector
  packed : (values : List ℤ) (validity : Option (List Word)) (offset : ℕ) → Int4Vector

-- The bit of a row in an Arrow validity map of bytes.
abbrev pub validity_bit : List Word → ℕ → Bool
validity_bit validity row = test_bit (get_or validity (row / 8) []) (row % 8)

-- `row += offset` stores an int64 sum in an int: past 2^31 - 1 the row number turns negative, and
-- the bit that is read lies outside the map.
unfoldable pub row_is_null : Int4Vector → ℕ → Bool
row_is_null (datum values isnull) row = get_or isnull row false
row_is_null (packed values none offset) row = false
row_is_null (packed values (some validity) offset) row =
    let physical = (row + offset) % 2 ^ 32 in
    if ltb physical (2 ^ 31) then not (validity_bit validity physical) else true

unfoldable pub row_value : Int4Vector → ℕ → ℤ
row_value (datum values isnull) row = get_or values row (pos 0)
row_value (packed values validity offset) row = get_or values (offset + row) (pos 0)

abbrev pub offset_of : Int4Vector → ℕ
offset_of (datum values isnull) = 0
offset_of (packed values validity offset) = offset

-- Every row number of the batch fits an int, counted from the start of the arrays.
abbrev pub Addressable : Int4Vector → ℕ → Type 0
Addressable column nrows = offset_of column + nrows ≤ 2 ^ 31

-- Within the int range a packed row is null exactly when its validity bit is clear.
pub row_is_null-packed :
    (values : List ℤ) (validity : List Word) (offset row : ℕ)
    → offset + row + 1 ≤ 2 ^ 31
    → row_is_null (packed values (some validity) offset) row
      ≡ not (validity_bit validity (offset + row))
unfolding row_is_null
row_is_null-packed values validity offset row h =
    let e : (row + offset) % 2 ^ 32 ≡ offset + row = omega arith in
    rw e (in_range (offset + row) (omega arith))
  where
    in_range :
        (n : ℕ)
        → n + 1 ≤ 2 ^ 31
        → (if ltb n (2 ^ 31) then not (validity_bit validity n) else true)
          ≡ not (validity_bit validity n)
    in_range n h = ground arith
