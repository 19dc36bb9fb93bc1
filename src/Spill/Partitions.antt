-- ===== src/Spill/Partitions.antt =====
-- spill/spill.c: the writing side of a spill set. Each partition has a tape; a bounded number of
-- partitions have a block in memory, and the block of another is evicted when a new one is needed.
-- Arrays over the partitions are functions of the partition. A negative count, which the code
-- refuses like 0, is not modelled; a negative partition is. Memory contexts are left out.
pub mod Write
pub mod Log
pub mod Slots
pub mod Steps
pub mod Evict
use pg_batch.Prelude.{
  ℕ, zero, suc, ◌+◌, ◌-◌, ◌*◌, ◌/◌, ◌%◌, ◌^◌, ◌≡◌, Bool, true, false, not, ◌||◌, List, [], ◌∷◌,
  Option, none, some, get_or, foldl, ltb, leb, ◌==◌, if◌then◌else◌, min, max,
}
use pg_batch.Prelude.Int.{ℤ, pos, negsuc}
use pg_batch.Prelude.Result.{Result, ok, err, ◌>>=◌}
use pg_batch.Bits.{Word, is_zero, bit_and, one_at, all_ones, decrement, test_bit}
use pg_batch.Bits.Ones.{set_bits_decrement}
use pg_batch.Postgres.{PgBitutils}
use pg_batch.Batch.Selection.{Selection, word_at, nwords}
use pg_batch.Kernels.Vector.{Int4Vector, datum, row_is_null, row_value}
use pg_batch.Spill.Tape.{LogicalTape}
use pg_batch.Spill.Block.{
  SpillWriter, fresh_writer, update, store_row, write_block, reset_block, block_bytes, writer_bytes,
}

pub data SpillError : Type 0 where
  invalid_configuration : SpillError
  not_int4 : (column : ℕ) → SpillError
  partition_out_of_range : SpillError
  invalid_write : SpillError
  already_finished : SpillError
  not_ready : SpillError
  destructive_reader : SpillError
  invalid_block : SpillError
  unexpected_end : SpillError
  still_writing : SpillError
  no_file : SpillError

pub record SpillStats : Type 0 where
  pub rows_written : ℕ
  pub rows_read : ℕ
  pub blocks_written : ℕ
  pub blocks_read : ℕ
  pub bytes_written : ℕ
  pub bytes_read : ℕ

abbrev pub no_stats : SpillStats
no_stats = record {
  rows_written = 0;
  rows_read = 0;
  blocks_written = 0;
  blocks_read = 0;
  bytes_written = 0;
  bytes_read = 0;
}

pub record SpillSet (Tape : Type 0) : Type 0 where
  pub ncolumns : ℕ
  pub npartitions : ℕ
  pub tapes : ℕ → Tape
  pub writers : ℕ → Option SpillWriter
  pub partition_rows : ℕ → ℕ
  pub active_writers : ℕ
  pub max_writers : ℕ
  pub eviction_cursor : ℕ
  pub finished : Bool
  pub frozen : Bool
  pub stats : SpillStats

-- A column of the tuple descriptor; INT4OID is the type's number in PostgreSQL's catalog.
pub record Attribute : Type 0 where
  pub attisdropped : Bool
  pub atttypid : ℕ

abbrev pub int4_oid : ℕ
int4_oid = 23

-- A sum of uint64
abbrev pub add64 : ℕ → ℕ → ℕ
add64 a b = (a + b) % 2 ^ 64

-- The loop over the first columns of the descriptor.
unfoldable pub check_columns : ℕ → ℕ → List Attribute → Option SpillError
check_columns zero column attributes = none
check_columns (suc n) column [] = none
check_columns (suc n) column (attr ∷ attributes) =
    if attr.attisdropped || not (attr.atttypid == int4_oid)
    then some (not_int4 (column + 1))
    else check_columns n (column + 1) attributes

abbrev pub column_count : List Attribute → ℕ
column_count [] = 0
column_count (a ∷ attributes) = suc (column_count attributes)

module _ {Tape : Type 0} where
  unfoldable pub validate_partition : SpillSet Tape → ℤ → Result SpillError ℕ
  validate_partition set (pos partition) =
      if leb set.npartitions partition then err partition_out_of_range else ok partition
  validate_partition set (negsuc n) = err partition_out_of_range

  unfoldable pub free_block : SpillSet Tape → ℕ → Option SpillWriter → SpillSet Tape
  free_block set partition none = set
  free_block set partition (some writer) = record set {
    writers = update set.writers partition none;
    active_writers = set.active_writers - 1;
  }

  unfoldable pub free_writer : SpillSet Tape → ℕ → SpillSet Tape
  unfolding free_block
  free_writer set partition = free_block set partition (set.writers partition)

  -- The victim of an eviction: the first partition from the cursor on that has a block.
  unfoldable pub find_victim : ℕ → ℕ → SpillSet Tape → Option ℕ
  find_victim zero offset set = none
  find_victim (suc n) offset set =
      let victim = (set.eviction_cursor + offset) % set.npartitions in
      let rest = find_victim n (offset + 1) set in
      elim (set.writers victim) [ none ↦ rest | some writer ↦ some victim ]

module _ {Tape : Type 0} ⦃tape : LogicalTape Tape⦄ where
  -- The set that pg_batch_spill_create fills in.
  unfoldable pub new_set : ℕ → ℕ → ℕ → SpillSet Tape
  new_set ncolumns npartitions buffer_limit = record {
    ncolumns = ncolumns;
    npartitions = npartitions;
    tapes = λ p. tape.create;
    writers = λ p. none;
    partition_rows = λ p. 0;
    active_writers = 0;
    max_writers = min npartitions (max 1 (buffer_limit / writer_bytes ncolumns));
    eviction_cursor = 0;
    finished = false;
    frozen = false;
    stats = no_stats;
  }

  unfoldable pub create : Option (List Attribute) → ℕ → ℕ → ℕ → Result SpillError (SpillSet Tape)
  unfolding check_columns
  create none ncolumns npartitions buffer_limit = err invalid_configuration
  create (some attributes) ncolumns npartitions buffer_limit =
      if ncolumns == 0 || ltb (column_count attributes) ncolumns || npartitions == 0
      then err invalid_configuration
      else elim (check_columns ncolumns 0 attributes) [
        | none ↦ ok (new_set ncolumns npartitions buffer_limit)
        | some e ↦ err e
      ]

  unfoldable pub flush_block : SpillSet Tape → ℕ → Option SpillWriter → SpillSet Tape
  flush_block set partition none = set
  flush_block set partition (some writer) = if writer.nrows == 0 then set else record set {
    tapes = update set.tapes partition (write_block set.ncolumns writer (set.tapes partition));
    writers = update set.writers partition (some (reset_block set.ncolumns writer));
    stats = record set.stats {
      blocks_written = add64 set.stats.blocks_written 1;
      bytes_written = add64 set.stats.bytes_written (block_bytes set.ncolumns writer.nrows);
    };
  }

  unfoldable pub flush_writer : SpillSet Tape → ℕ → SpillSet Tape
  unfolding flush_block
  flush_writer set partition = flush_block set partition (set.writers partition)

  unfoldable pub evict_victim : SpillSet Tape → Option ℕ → SpillSet Tape
  evict_victim set none = set
  evict_victim set (some victim) = record (free_writer (flush_writer set victim) victim) {
    eviction_cursor = (victim + 1) % set.npartitions;
  }

  -- The loop that looks for a block to write out.
  unfoldable pub evict : SpillSet Tape → SpillSet Tape
  evict set = evict_victim set (find_victim set.npartitions 0 set)

  unfoldable pub start_block : SpillSet Tape → ℕ → Option SpillWriter → SpillSet Tape
  start_block set partition (some writer) = set
  start_block set partition none =
      let roomy = if set.active_writers == set.max_writers then evict set else set in
      record roomy {
        writers = update roomy.writers partition (some fresh_writer);
        active_writers = roomy.active_writers + 1;
      }

  -- The writer that the code returns is the partition's one in the set.
  unfoldable pub get_writer : SpillSet Tape → ℕ → SpillSet Tape
  unfolding start_block evict evict_victim find_victim free_writer free_block flush_writer
  get_writer set partition = start_block set partition (set.writers partition)
