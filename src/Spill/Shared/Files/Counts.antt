-- ===== src/Spill/Shared/Files/Counts.antt =====
-- spill/spill.c: pg_batch_shared_spill_partition_rows counts the rows of all participants.
use pg_batch.Prelude.{
  ℕ, zero, suc, ◌+◌, ◌%◌, ◌^◌, ◌≤◌, ◌<◌, ◌≡◌, sym, ap, ◌∙◌, false, List, arith, length,
  length-append, leb,
}
use pg_batch.Prelude.Int.{pos}
use pg_batch.Prelude.Result.{ok}
use pg_batch.Spill.Tape.{LogicalTape}
use pg_batch.Spill.Block.{SpillRow}
use pg_batch.Spill.Shared.Files.{SharedSpill, shared_partition, sum_rows, shared_partition_rows}
use pg_batch.Spill.Shared.Files.Opened.{logs_from, IsComplete}

module _ {File : Type 0} ⦃tape : LogicalTape File⦄ (shared : SharedSpill File) (p : ℕ)
    (log : ℕ → List SpillRow) (complete : IsComplete shared p log) where
  sum_rows-logs_from :
      (n i result : ℕ)
      → i + n ≤ shared.participants
      → sum_rows n i p shared (result % 2 ^ 64) ≡ (result + length (logs_from n i log)) % 2 ^ 64
  unfolding sum_rows logs_from
  sum_rows-logs_from zero i result h = omega arith
  sum_rows-logs_from (suc n) i result h =
      let counted = (complete.exported i (omega arith)).counted in
      let sum : (result % 2 ^ 64 + shared.rows i p) % 2 ^ 64 ≡ (result + length (log i)) % 2 ^ 64 =
        omega (arith, counted) in
      ap (sum_rows n (i + 1) p shared) sum
      ∙ sum_rows-logs_from n (i + 1) (result + length (log i)) (omega arith)
      ∙ omega (arith, length-append (log i) (logs_from n (i + 1) log))

  -- When all participants have ended, the count of a partition is the number of the rows that a reader
  -- gives, reduced to 64 bits.
  pub shared_partition_rows-logs_from :
      p < shared.partitions
      → shared_partition_rows shared (pos p)
        ≡ ok (length (logs_from shared.participants 0 log) % 2 ^ 64)
  unfolding shared_partition_rows shared_partition
  shared_partition_rows-logs_from inside =
      let within : leb shared.partitions p ≡ false = ground (arith, inside) in
      let none_yet : 0 % 2 ^ 64 ≡ 0 = omega arith in
      let total : (0 + length (logs_from shared.participants 0 log)) % 2 ^ 64
          ≡ length (logs_from shared.participants 0 log) % 2 ^ 64 =
        omega arith in
      rw within (
        ap ok (
          ap (sum_rows shared.participants 0 p shared) (sym none_yet)
          ∙ sum_rows-logs_from shared.participants 0 0 (omega arith)
          ∙ total))
