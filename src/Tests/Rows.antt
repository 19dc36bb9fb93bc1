-- ===== src/Tests/Rows.antt =====
-- The theorems on selections at the sample batch.
use pg_batch.Prelude.{◌≡◌, refl, some, arith, length, not, ◌&&◌, ◌==◌}
use pg_batch.Batch.Selection.{contains, clear, intersect, count, next}
use pg_batch.Batch.Selection.Rows.{rows}
use pg_batch.Batch.Selection.Next.{IsFirst, next-IsFirst}
use pg_batch.Batch.Selection.Count.{count-rows}
use pg_batch.Batch.Selection.Update.{contains-clear, contains-intersect}
use pg_batch.Tests.{bitutils, five, five-IsWellFormed}

next-IsFirst_example : IsFirst five 2 (next five (some 1))
next-IsFirst_example = next-IsFirst five five-IsWellFormed (some 1)

count-rows_example : count five ≡ length (rows five)
count-rows_example = count-rows five five-IsWellFormed

contains-clear_example : contains (clear five 3) 4 ≡ contains five 4 && not (4 == 3)
contains-clear_example = contains-clear five 3 4 (omega arith)

contains-intersect_example :
    contains (intersect five (clear five 3)) 3 ≡ contains five 3 && contains (clear five 3) 3
contains-intersect_example = contains-intersect five (clear five 3) 3 (unfold clear in refl)
