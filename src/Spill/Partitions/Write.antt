-- ===== src/Spill/Partitions/Write.antt =====
-- spill/spill.c: the operations on a spill set: writing rows, finishing, and the partitions' counts.
pub mod Append
pub mod Finish
pub mod Finished
pub mod Rows
pub mod Accepted
use pg_batch.Prelude.{
  ℕ, zero, suc, ◌+◌, ◌-◌, ◌*◌, ◌/◌, ◌%◌, ◌^◌, ◌≡◌, Bool, true, false, not, ◌||◌, List, [], ◌∷◌,
  Option, none, some, get_or, foldl, ltb, leb, ◌==◌, if◌then◌else◌,
}
use pg_batch.Prelude.Int.{ℤ, pos, negsuc}
use pg_batch.Prelude.Result.{Result, ok, err, ◌>>=◌}
use pg_batch.Bits.{Word, is_zero, bit_and, one_at, all_ones, decrement, test_bit}
use pg_batch.Bits.Ones.{set_bits_decrement}
use pg_batch.Postgres.{PgBitutils}
use pg_batch.Batch.Selection.{Selection, word_at, nwords}
use pg_batch.Kernels.Vector.{Int4Vector, datum, row_is_null, row_value}
use pg_batch.Spill.Tape.{LogicalTape}
use pg_batch.Spill.Block.{SpillWriter, update, store_row}
use pg_batch.Spill.Partitions.{
  SpillError, partition_out_of_range, invalid_write, already_finished, SpillSet, add64,
  validate_partition, flush_writer, free_writer, get_writer,
}

-- The cell that pg_batch_spill_write stores for a row of a column: 0 for a null.
pub column_cell : List Int4Vector → ℕ → ℕ → ℤ × Bool
column_cell columns row c =
    let column = get_or columns c (datum [] []) in
    if row_is_null column row then (pos 0, false) else (row_value column row, true)

-- The cell that pg_batch_spill_write_dense stores.
pub dense_cell : List ℤ → ℕ → List Word → ℕ → ℕ → ℤ × Bool
dense_cell values value_stride validity row c =
    (get_or values (c * value_stride + row) (pos 0), test_bit (get_or validity c []) row)

-- nrows == 64 ? UINT64_MAX : (1 << nrows) - 1
pub first_rows : ℕ → Word
first_rows nrows = if nrows == 64 then all_ones 64 else decrement (one_at 64 nrows)

module _ {Tape : Type 0} ⦃tape : LogicalTape Tape⦄ where
  unfoldable pub put_row :
      SpillSet Tape → ℕ → ℕ → (ℕ → ℤ × Bool) → Option SpillWriter → SpillSet Tape
  put_row set partition hash cell none = set
  put_row set partition hash cell (some writer) =
      let stored = store_row set.ncolumns hash cell writer in
      let counted : SpillSet Tape = record set {
        writers = update set.writers partition (some stored);
        partition_rows =
            update set.partition_rows partition (add64 (set.partition_rows partition) 1);
        stats = record set.stats { rows_written = add64 set.stats.rows_written 1 };
      } in
      if stored.nrows == 64 then flush_writer counted partition else counted

  -- The body of the loops over the rows.
  unfoldable pub add_row : SpillSet Tape → ℕ → ℕ → (ℕ → ℤ × Bool) → SpillSet Tape
  add_row set partition hash cell = put_row set partition hash cell (set.writers partition)

  -- A partition that has rows is made ready for reading.
  pub rewind_partition : Bool → SpillSet Tape → ℕ → SpillSet Tape
  rewind_partition frozen set partition =
      let rewind = if frozen then tape.freeze else tape.rewind_for_read in
      if set.partition_rows partition == 0
      then set
      else record set { tapes = update set.tapes partition (rewind (set.tapes partition)) }

  pub finish_partition : Bool → SpillSet Tape → ℕ → SpillSet Tape
  unfolding rewind_partition
  finish_partition frozen set partition =
      free_writer (rewind_partition frozen (flush_writer set partition) partition) partition

  pub finish_loop : ℕ → ℕ → Bool → SpillSet Tape → SpillSet Tape
  finish_loop zero partition frozen set = set
  finish_loop (suc n) partition frozen set =
      finish_loop n (partition + 1) frozen (finish_partition frozen set partition)

  unfoldable pub finish : SpillSet Tape → Bool → Result SpillError (SpillSet Tape)
  unfolding finish_loop finish_partition free_writer
  finish set frozen =
      if set.finished
      then err already_finished
      else ok
          (record (finish_loop set.npartitions 0 frozen set) { finished = true; frozen = frozen })

  -- for (int row = 0; row < nrows; row++)
  unfoldable pub dense_rows :
      ℕ → ℕ → SpillSet Tape → ℕ → List ℕ → List ℤ → ℕ → List Word → SpillSet Tape
  dense_rows zero row set partition hashes values value_stride validity = set
  dense_rows (suc n) row set partition hashes values value_stride validity =
      dense_rows n (row + 1)
        (add_row set partition (get_or hashes row 0) (dense_cell values value_stride validity row))
        partition hashes values value_stride validity

  -- A NULL argument is `none`.
  unfoldable pub write_dense :
      SpillSet Tape
      → ℤ
      → ℕ
      → Option (List ℕ)
      → Option (List ℤ)
      → ℕ
      → Option (List Word)
      → Result SpillError (SpillSet Tape)
  unfolding dense_rows add_row put_row
  write_dense set partition nrows (some hashes) (some values) value_stride (some validity) =
      validate_partition set partition >>= λ p.
      if set.finished || nrows == 0 || ltb 64 nrows || ltb value_stride nrows
      then err invalid_write
      else ok (dense_rows nrows 0 (get_writer set p) p hashes values value_stride validity)
  write_dense set partition nrows _ _ value_stride _ =
      validate_partition set partition >>= λ p. err invalid_write

module _ {Tape : Type 0} ⦃tape : LogicalTape Tape⦄ ⦃pg : PgBitutils⦄ where
  unfoldable pub write_rows :
      SpillSet Tape → ℕ → List Int4Vector → Selection → List ℕ → SpillSet Tape
  write_rows set partition columns selection hashes =
      let rows = bit_and (word_at selection 0) (first_rows selection.nrows) in
      if is_zero rows
      then set
      else foldl (λ set row. add_row set partition (get_or hashes row 0) (column_cell columns row))
          (get_writer set partition) (set_bits_decrement rows)

  unfoldable pub write :
      SpillSet Tape
      → ℤ
      → Option (List Int4Vector)
      → Option Selection
      → Option (List ℕ)
      → Result SpillError (SpillSet Tape)
  unfolding write_rows add_row put_row
  write set partition (some columns) (some selection) (some hashes) =
      validate_partition set partition >>= λ p.
      if set.finished || ltb 64 selection.nrows || not (nwords selection == 1)
      then err invalid_write
      else ok (write_rows set p columns selection hashes)
  write set partition _ _ _ = validate_partition set partition >>= λ p. err invalid_write

module _ {Tape : Type 0} where
  pub partition_empty : SpillSet Tape → ℤ → Result SpillError Bool
  partition_empty set partition = do
    p ← validate_partition set partition
    ok (set.partition_rows p == 0)

  pub rows_in_partition : SpillSet Tape → ℤ → Result SpillError ℕ
  rows_in_partition set partition = do
    p ← validate_partition set partition
    ok (set.partition_rows p)
