-- ===== src/Spill/Reader.antt =====
-- spill/spill.c: reading a partition back, block by block. The arrays of a block are those of the
-- reader up to the block's rows; what earlier blocks left beyond them is not modelled.
pub mod Blocks
pub mod Drain
pub mod RoundTrip
pub mod Damage
pub mod Answers
use pg_batch.Prelude.{
  ℕ, zero, suc, ◌+◌, ◌*◌, ◌/◌, ◌%◌, ◌^◌, Bool, true, false, not, ◌&&◌, ◌||◌, List, [], ◌∷◌, ◌++◌,
  Option, none, some, map, length, get_or, take, drop, ltb, ◌==◌, if◌then◌else◌,
}
use pg_batch.Prelude.Int.{ℤ, pos}
use pg_batch.Prelude.Result.{Result, ok, err, ◌>>=◌}
use pg_batch.Bits.{Word, test_bit}
use pg_batch.Spill.Bytes.{from_bytes, read_words, to_int32}
use pg_batch.Spill.Tape.{LogicalTape}
use pg_batch.Spill.Block.{SpillHeader, SpillRow, spill_magic, update, tabulate, block_bytes}
use pg_batch.Spill.Partitions.{
  SpillError, not_ready, destructive_reader, invalid_block, unexpected_end, SpillSet, add64,
  validate_partition,
}
use pg_batch.Spill.Partitions.Write.{first_rows}

pub record SpillBlock : Type 0 where
  pub nrows : ℕ
  pub ncolumns : ℕ
  pub selection : Word
  pub hashes : List ℕ
  pub values : List (List ℤ)
  pub validity : List Word

pub record SpillReader : Type 0 where
  pub partition : ℕ
  pub eof : Bool

-- The row of a block that a client reads.
abbrev pub block_cell : SpillBlock → ℕ → ℕ → Option ℤ
block_cell b row c =
    if test_bit (get_or b.validity (c * 8 + row / 8) []) (row % 8)
    then some (get_or (get_or b.values c []) row (pos 0))
    else none

abbrev pub block_row : SpillBlock → ℕ → SpillRow
block_row b row = record {
  hash = get_or b.hashes row 0;
  cells = tabulate 0 b.ncolumns (block_cell b row);
}

pub rows_of_block : SpillBlock → List SpillRow
rows_of_block b = tabulate 0 b.nrows (block_row b)

-- The SpillHeader that eight bytes hold.
pub parse_header : List Word → SpillHeader
parse_header bs = record {
  magic = from_bytes (take 4 bs);
  nrows = from_bytes (take 2 (drop 4 bs));
  ncolumns = from_bytes (take 2 (drop 6 bs));
}

pub is_valid_header : ℕ → SpillHeader → Bool
is_valid_header ncolumns h =
    (h.magic == spill_magic)
    && (h.ncolumns == ncolumns)
    && not (h.nrows == 0)
    && not (ltb 64 h.nrows)

module _ {Tape : Type 0} ⦃tape : LogicalTape Tape⦄ where
  -- for (int column = 0; column < ncolumns; column++)
  pub read_columns : ℕ → ℕ → Tape → Result SpillError (List (List ℤ) × Tape)
  read_columns zero nrows t = ok ([], t)
  read_columns (suc n) nrows t =
      let (bs, after) = tape.read t (4 * nrows) in
      let rest =
        read_columns n nrows after >>= λ r. ok (map to_int32 (read_words nrows bs) ∷ r.0, r.1) in
      if length bs == 4 * nrows then rest else err unexpected_end

  -- The reads that follow a header.
  pub read_block : ℕ → SpillHeader → Tape → Result SpillError (SpillBlock × Tape)
  unfolding read_columns
  read_block ncolumns header t =
      let (hash_bytes, after_hashes) = tape.read t (4 * header.nrows) in
      let (validity, after_validity) = tape.read after_hashes (8 * ncolumns) in
      if not (length hash_bytes == 4 * header.nrows) || not (length validity == 8 * ncolumns)
      then err unexpected_end
      else read_columns ncolumns header.nrows after_validity >>= λ r. ok (
        record {
          nrows = header.nrows;
          ncolumns = ncolumns;
          selection = first_rows header.nrows;
          hashes = read_words header.nrows hash_bytes;
          values = r.0;
          validity = validity;
        },
        r.1,
      )

  -- The set after a block was read: its tape has moved on, and the block is counted.
  pub block_read : SpillSet Tape → ℕ → SpillBlock → Tape → SpillSet Tape
  block_read set partition block t = record set {
    tapes = update set.tapes partition t;
    stats = record set.stats {
      rows_read = add64 set.stats.rows_read block.nrows;
      blocks_read = add64 set.stats.blocks_read 1;
      bytes_read = add64 set.stats.bytes_read (block_bytes set.ncolumns block.nrows);
    };
  }

  -- `none` where the code returns false.
  pub reader_next :
      SpillSet Tape
      → SpillReader
      → Result SpillError (Option SpillBlock × SpillSet Tape × SpillReader)
  reader_next set reader =
      let (bs, after) = tape.read (set.tapes reader.partition) 8 in
      let header = parse_header bs in
      let ended : SpillSet Tape = record set { tapes = update set.tapes reader.partition after } in
      let block = read_block set.ncolumns header after in
      if reader.eof
      then ok (none, set, reader)
      else if length bs == 0
      then ok (none, ended, record reader { eof = true })
      else if not (length bs == 8) || not (is_valid_header set.ncolumns header)
      then err invalid_block
      else block >>= λ r. ok (some r.0, block_read set reader.partition r.0 r.1, reader)

  pub reader_open : SpillSet Tape → ℤ → Result SpillError (SpillReader × SpillSet Tape)
  reader_open set partition = validate_partition set partition >>= λ p.
      let reader : SpillReader = record { partition = p; eof = set.partition_rows p == 0 } in
      let rewound : SpillSet Tape = record set {
        tapes = update set.tapes p (tape.rewind_for_read (set.tapes p));
      } in
      if not set.finished
      then err not_ready
      else if set.frozen && not (set.partition_rows p == 0)
      then ok (reader, rewound)
      else ok (reader, set)

  pub reader_rewind : SpillSet Tape → SpillReader → Result SpillError (SpillReader × SpillSet Tape)
  reader_rewind set reader =
      let p = reader.partition in
      let rewound : SpillSet Tape = record set {
        tapes = update set.tapes p (tape.rewind_for_read (set.tapes p));
      } in
      if not set.frozen
      then err destructive_reader
      else if set.partition_rows p == 0
      then ok (record reader { eof = true }, set)
      else ok (record reader { eof = false }, rewound)

-- What a client has read: its rows, and the set and the reader that it leaves.
abbrev pub Read : Type 0 → Type 0
Read Tape = List SpillRow × SpillSet Tape × SpillReader

module _ {Tape : Type 0} where
  abbrev pub prepend : SpillBlock → Option (Read Tape) → Option (Read Tape)
  prepend b none = none
  prepend b (some (rows, set, reader)) = some (rows_of_block b ++ rows, set, reader)

  abbrev pub drain_step :
      (SpillSet Tape → SpillReader → Result SpillError (Option (Read Tape)))
      → Option SpillBlock × SpillSet Tape × SpillReader
      → Result SpillError (Option (Read Tape))
  drain_step rest (none, set, reader) = ok (some ([], set, reader))
  drain_step rest (some b, set, reader) = rest set reader >>= λ o. ok (prepend b o)

module _ {Tape : Type 0} ⦃tape : LogicalTape Tape⦄ where
  -- A client that reads blocks until there are none; `none` where its rounds run out.
  pub drain : ℕ → SpillSet Tape → SpillReader → Result SpillError (Option (Read Tape))
  drain zero set reader = ok none
  drain (suc fuel) set reader = reader_next set reader >>= drain_step (λ s r. drain fuel s r)
