-- ===== src/Tests/Executors.antt =====
-- The theorems on the unary executor at a node that stops at its second batch.
use pg_batch.Prelude.{ℕ, ◌+◌, ◌≡◌, refl, ap, false, [], ◌∷◌, Option, none, some, arith, length, leb}
use pg_batch.Bits.{is_zero, bit_and, one_at}
use pg_batch.Batch.Selection.{Selection, count, contains}
use pg_batch.Batch.Selection.Rows.{rows_where}
use pg_batch.Batch.Selection.Count.{count-rows}
use pg_batch.Limit.Stream.{all_rows}
use pg_batch.Runtime.Unary.{Unary, Outcome, no_unary_stats}
use pg_batch.Runtime.Unary.Fetch.{IsExact, passed}
use pg_batch.Runtime.Unary.Drained.{take_rows, take_rows-passed}
use pg_batch.Runtime.Unary.Batches.{take_batches, all_rows-take_batches, take_rows-take_batches}
use pg_batch.Tests.{bitutils, five, five-IsWellFormed}

-- The private data counts the batches.
abbrev count_batches : Option (ℕ → Selection → Outcome ℕ)
count_batches =
    some
      (λ n s. record { private_data = n + 1; selection = s; rows = count s; stops = leb 2 (n + 1) })

count_batches-IsExact : IsExact count_batches
count_batches-IsExact n s h = (h, count-rows s h)

abbrev executor : Unary ℕ
executor = record {
  input =
      (record { number = 1; selection = five })
      ∷ (record { number = 2; selection = five })
      ∷ (record { number = 3; selection = five })
      ∷ [];
  private_data = 0;
  active_batch = none;
  next_row = none;
  stopped = false;
  stats = no_unary_stats;
}

eight_rows : length (passed count_batches false 0 executor.input) ≡ 8
unfolding passed rows_where contains is_zero bit_and one_at
eight_rows = refl

take_rows-passed_example :
    take_rows count_batches 9 executor ≡ some (passed count_batches false 0 executor.input)
take_rows-passed_example =
    take_rows-passed count_batches 9 executor count_batches-IsExact refl
      (five-IsWellFormed, (five-IsWellFormed, (five-IsWellFormed, tt))) (omega (arith, eight_rows))

take_rows-take_batches_example :
    take_rows count_batches 9 executor ≡ some (all_rows (take_batches count_batches 4 executor))
take_rows-take_batches_example =
    take_rows-take_batches count_batches 9 4 executor count_batches-IsExact refl
      (five-IsWellFormed, (five-IsWellFormed, (five-IsWellFormed, tt))) (omega arith)
      (omega (
        arith,
        ap (length {A = ℕ × ℕ}) (
            all_rows-take_batches count_batches 4 executor count_batches-IsExact
              (five-IsWellFormed, (five-IsWellFormed, (five-IsWellFormed, tt))) (omega arith)),
        eight_rows,
      ))
