-- ===== src/Tests/Limits.antt =====
-- The theorems on LIMIT and OFFSET at two batches, and the node run on them.
use pg_batch.Prelude.{◌≡◌, refl, false, none, List, [], ◌∷◌, arith}
use pg_batch.Limit.{LimitState}
use pg_batch.Limit.Window.{window}
use pg_batch.Limit.Stream.{Batch, all_rows, exec_all, exec_all-window}
use pg_batch.Tests.{bitutils, five, five-IsWellFormed}

abbrev batches : List Batch
batches = (record { number = 1; selection = five }) ∷ (record { number = 2; selection = five }) ∷ []

abbrev limits : LimitState
limits = record {
  offset_remaining = 3;
  count_remaining = 4;
  no_count = false;
  stopped = false;
  limits_ready = false;
  bound = none;
}

exec_all-window_example : all_rows (exec_all 3 limits batches) ≡ window limits (all_rows batches)
exec_all-window_example =
    exec_all-window 3 limits batches (omega arith) (five-IsWellFormed, (five-IsWellFormed, tt)) refl
