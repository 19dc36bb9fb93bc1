-- ===== src/Tests/Columns.antt =====
-- The theorems on the kernels at the sample batch, and the kernels run on it.
use pg_batch.Prelude.{◌≡◌, refl, true, false, [], ◌∷◌, arith, replicate, ◌&&◌}
use mathlib.Core.Option
use pg_batch.Prelude.Int.{pos, negsuc}
use pg_batch.Prelude.Result.{◌>>=◌}
use pg_batch.Bits.{zeros}
use pg_batch.Batch.Selection.{contains}
use pg_batch.Kernels.Compare.{lt, compare, compare_op, compare_op_lem, call_compare, int4lt}
use pg_batch.Kernels.Filter.{filter_int4}
use pg_batch.Kernels.Filter.Agree.{passes, contains-filter_int4}
use pg_batch.Kernels.Arithmetic.{
  Output, multiply, divide, int4_arithmetic, arithmetic_scalar, int32_min,
}
use pg_batch.Kernels.Arithmetic.Exact.{exact, in_range, int4_arithmetic-exact}
use pg_batch.Kernels.Arithmetic.Rows.{MeetsRows, arithmetic_scalar-MeetsRows}
use pg_batch.Kernels.Reduce.{Flags, reduce_int4}
use pg_batch.Kernels.Reduce.Spec.{Reduces, live_rows, reduce_int4-Reduces}
use pg_batch.Tests.{bitutils, int, sse2, five, five-IsWellFormed, column}

compare_op_lem_example :
    (Option.map (compare (pos 3) (pos 5)) (compare_op int4lt 0)
      ≡ call_compare int4lt (pos 3) (pos 5))
    × (Option.map (compare (pos 3) (pos 5)) (compare_op int4lt 1)
        ≡ call_compare int4lt (pos 5) (pos 3))
compare_op_lem_example = compare_op_lem int4lt (pos 3) (pos 5)

contains-filter_int4_example :
    contains (filter_int4 sse2 true column five lt (pos 50) true) 3
    ≡ contains five 3 && passes column lt (pos 50) 3
contains-filter_int4_example =
    contains-filter_int4 sse2 true column lt (pos 50) true five five-IsWellFormed 3

int4_arithmetic-exact_example :
    int4_arithmetic int32_min (negsuc 0) divide ≡ exact int32_min (negsuc 0) divide >>= in_range
int4_arithmetic-exact_example = int4_arithmetic-exact int32_min (negsuc 0) divide refl refl

abbrev room : Output
room = record { values = replicate 5 (pos 0); validity = zeros 8 ∷ [] }

arithmetic_scalar-MeetsRows_example :
    MeetsRows column multiply
      (pos 3)
      false
      five
      (arithmetic_scalar column multiply (pos 3) false five room)
arithmetic_scalar-MeetsRows_example =
    arithmetic_scalar-MeetsRows column multiply (pos 3) false five room five-IsWellFormed
      (omega arith) (record { values = omega arith; validity = omega arith })

abbrev all_flags : Flags
all_flags = record { count = true; sum = true; min = true; max = true }

reduce_int4-Reduces_example :
    Reduces column all_flags (live_rows column five) (reduce_int4 column five all_flags)
reduce_int4-Reduces_example = reduce_int4-Reduces column all_flags five five-IsWellFormed
