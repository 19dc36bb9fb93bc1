-- ===== src/Spill/Shared.antt =====
-- spill/spill.c: the writer of one participant of a parallel node. Its partitions are files of a file
-- set, which are created when the first block is written out. A BufFile is used through the operations
-- of LogicalTape: it is created and written, and exported for reading, which freezes it.
pub mod AsSet
pub mod Local
pub mod Files
pub mod Owner
pub mod History
pub mod Participants
use pg_batch.Prelude.{
  ℕ, zero, suc, ◌+◌, ◌-◌, ◌/◌, ◌%◌, ◌≡◌, Bool, true, false, not, ◌||◌, List, [], ◌∷◌, Option, none,
  some, get_or, foldl, ltb, leb, ◌==◌, if◌then◌else◌, min, max,
}
use pg_batch.Prelude.Int.{ℤ, pos, negsuc}
use pg_batch.Prelude.Result.{Result, ok, err, ◌>>=◌}
use pg_batch.Postgres.{PgBitutils}
use pg_batch.Bits.{Word, is_zero, bit_and}
use pg_batch.Bits.Ones.{set_bits_decrement}
use pg_batch.Batch.Selection.{Selection, word_at, nwords}
use pg_batch.Kernels.Vector.{Int4Vector}
use pg_batch.Spill.Tape.{LogicalTape}
use pg_batch.Spill.Block.{
  SpillWriter, fresh_writer, update, store_row, write_block, reset_block, block_bytes, writer_bytes,
}
use pg_batch.Spill.Partitions.{
  SpillError, invalid_configuration, partition_out_of_range, invalid_write, already_finished,
  SpillStats, no_stats, add64, Attribute, check_columns, column_count,
}
use pg_batch.Spill.Partitions.Write.{column_cell, dense_cell, first_rows}

-- `partitions` is writer->shared->partitions.
pub record SharedWriter (File : Type 0) : Type 0 where
  pub participant : ℕ
  pub partitions : ℕ
  pub ncolumns : ℕ
  pub files : ℕ → Option File
  pub writers : ℕ → Option SpillWriter
  pub partition_rows : ℕ → ℕ
  pub active_writers : ℕ
  pub max_writers : ℕ
  pub eviction_cursor : ℕ
  pub finished : Bool
  pub stats : SpillStats

module _ {File : Type 0} where
  pub validate_shared_partition : SharedWriter File → ℤ → Result SpillError ℕ
  validate_shared_partition w (pos partition) =
      if leb w.partitions partition then err partition_out_of_range else ok partition
  validate_shared_partition w (negsuc n) = err partition_out_of_range

  pub shared_free_block : SharedWriter File → ℕ → Option SpillWriter → SharedWriter File
  shared_free_block w partition none = w
  shared_free_block w partition (some block) = record w {
    writers = update w.writers partition none;
    active_writers = w.active_writers - 1;
  }

  pub shared_free_writer : SharedWriter File → ℕ → SharedWriter File
  unfolding shared_free_block
  shared_free_writer w partition = shared_free_block w partition (w.writers partition)

  shared_find_victim : ℕ → ℕ → SharedWriter File → Option ℕ
  shared_find_victim zero offset w = none
  shared_find_victim (suc n) offset w =
      let victim = (w.eviction_cursor + offset) % w.partitions in
      let rest = shared_find_victim n (offset + 1) w in
      elim (w.writers victim) [ none ↦ rest | some block ↦ some victim ]

module _ {File : Type 0} ⦃tape : LogicalTape File⦄ where
  -- The file of a partition, which is created if there is none.
  abbrev pub file_or_new : Option File → File
  file_or_new none = tape.create
  file_or_new (some file) = file

  -- The writer that is filled in for a participant.
  unfoldable pub new_shared_writer : ℕ → ℕ → ℕ → ℕ → SharedWriter File
  new_shared_writer participant partitions ncolumns buffer_limit = record {
    participant = participant;
    partitions = partitions;
    ncolumns = ncolumns;
    files = λ p. none;
    writers = λ p. none;
    partition_rows = λ p. 0;
    active_writers = 0;
    max_writers = min partitions (max 1 (buffer_limit / writer_bytes ncolumns));
    eviction_cursor = 0;
    finished = false;
    stats = no_stats;
  }

  -- `participants`, `partitions` and `ncolumns` are those of the shared object.
  unfoldable pub shared_writer_create :
      (participants partitions ncolumns : ℕ)
      → ℕ
      → Option (List Attribute)
      → ℕ
      → Result SpillError (SharedWriter File)
  shared_writer_create participants partitions ncolumns participant none buffer_limit =
      err invalid_configuration
  shared_writer_create participants partitions ncolumns participant (some attributes) buffer_limit =
      if leb participants participant || ltb (column_count attributes) ncolumns
      then err invalid_configuration
      else elim (check_columns ncolumns 0 attributes) [
        | none ↦ ok (new_shared_writer participant partitions ncolumns buffer_limit)
        | some e ↦ err e
      ]

  pub shared_flush_block : SharedWriter File → ℕ → Option SpillWriter → SharedWriter File
  shared_flush_block w partition none = w
  shared_flush_block w partition (some block) = if block.nrows == 0 then w else record w {
    files =
        update w.files partition
          (some (write_block w.ncolumns block (file_or_new (w.files partition))));
    writers = update w.writers partition (some (reset_block w.ncolumns block));
    stats = record w.stats {
      blocks_written = add64 w.stats.blocks_written 1;
      bytes_written = add64 w.stats.bytes_written (block_bytes w.ncolumns block.nrows);
    };
  }

  pub shared_flush_writer : SharedWriter File → ℕ → SharedWriter File
  unfolding shared_flush_block
  shared_flush_writer w partition = shared_flush_block w partition (w.writers partition)

  shared_evict_victim : SharedWriter File → Option ℕ → SharedWriter File
  shared_evict_victim w none = w
  shared_evict_victim w (some victim) =
      record (shared_free_writer (shared_flush_writer w victim) victim) {
        eviction_cursor = (victim + 1) % w.partitions;
      }

  shared_start_block : SharedWriter File → ℕ → Option SpillWriter → SharedWriter File
  shared_start_block w partition (some block) = w
  shared_start_block w partition none =
      let evicted = shared_evict_victim w (shared_find_victim w.partitions 0 w) in
      let roomy = if w.active_writers == w.max_writers then evicted else w in
      record roomy {
        writers = update roomy.writers partition (some fresh_writer);
        active_writers = roomy.active_writers + 1;
      }

  pub shared_get_writer : SharedWriter File → ℕ → SharedWriter File
  unfolding shared_start_block shared_evict_victim shared_find_victim shared_free_writer
      shared_flush_writer
  shared_get_writer w partition = shared_start_block w partition (w.writers partition)

  shared_put_row :
      SharedWriter File → ℕ → ℕ → (ℕ → ℤ × Bool) → Option SpillWriter → SharedWriter File
  shared_put_row w partition hash cell none = w
  shared_put_row w partition hash cell (some block) =
      let stored = store_row w.ncolumns hash cell block in
      let counted : SharedWriter File = record w {
        writers = update w.writers partition (some stored);
        partition_rows = update w.partition_rows partition (add64 (w.partition_rows partition) 1);
        stats = record w.stats { rows_written = add64 w.stats.rows_written 1 };
      } in
      if stored.nrows == 64 then shared_flush_writer counted partition else counted

  -- The body of the loops over the rows.
  shared_add_row : SharedWriter File → ℕ → ℕ → (ℕ → ℤ × Bool) → SharedWriter File
  unfolding shared_put_row
  shared_add_row w partition hash cell = shared_put_row w partition hash cell (w.writers partition)

  shared_dense_rows :
      ℕ → ℕ → SharedWriter File → ℕ → List ℕ → List ℤ → ℕ → List Word → SharedWriter File
  shared_dense_rows zero row w partition hashes values value_stride validity = w
  shared_dense_rows (suc n) row w partition hashes values value_stride validity =
      shared_dense_rows n (row + 1)
        (shared_add_row w partition (get_or hashes row 0)
          (dense_cell values value_stride validity row))
        partition hashes values value_stride validity

  pub shared_write_dense :
      SharedWriter File
      → ℤ
      → ℕ
      → Option (List ℕ)
      → Option (List ℤ)
      → ℕ
      → Option (List Word)
      → Result SpillError (SharedWriter File)
  unfolding shared_dense_rows shared_add_row shared_get_writer
  shared_write_dense w partition nrows (some hashes) (some values) value_stride (some validity) =
      validate_shared_partition w partition >>= λ p.
      if w.finished || nrows == 0 || ltb 64 nrows || ltb value_stride nrows
      then err invalid_write
      else ok
          (shared_dense_rows nrows 0 (shared_get_writer w p) p hashes values value_stride validity)
  shared_write_dense w partition nrows _ _ value_stride _ =
      validate_shared_partition w partition >>= λ p. err invalid_write

module _ {File : Type 0} ⦃tape : LogicalTape File⦄ ⦃pg : PgBitutils⦄ where
  shared_write_rows :
      SharedWriter File → ℕ → List Int4Vector → Selection → List ℕ → SharedWriter File
  shared_write_rows w partition columns selection hashes =
      let rows = bit_and (word_at selection 0) (first_rows selection.nrows) in
      if is_zero rows
      then w
      else foldl
          (λ w row. shared_add_row w partition (get_or hashes row 0) (column_cell columns row))
          (shared_get_writer w partition) (set_bits_decrement rows)

  pub shared_write :
      SharedWriter File
      → ℤ
      → Option (List Int4Vector)
      → Option Selection
      → Option (List ℕ)
      → Result SpillError (SharedWriter File)
  unfolding shared_write_rows shared_add_row shared_get_writer
  shared_write w partition (some columns) (some selection) (some hashes) =
      validate_shared_partition w partition >>= λ p.
      if w.finished || ltb 64 selection.nrows || not (nwords selection == 1)
      then err invalid_write
      else ok (shared_write_rows w p columns selection hashes)
  shared_write w partition _ _ _ = validate_shared_partition w partition >>= λ p. err invalid_write
