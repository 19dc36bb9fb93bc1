-- ===== src/Spill/Reader/Drain.antt =====
-- spill/spill.c: a reader of a sealed partition gives the rows of its log, in order, and then ends.
use pg_batch.Prelude.{
  ℕ, zero, suc, ◌*◌, ◌%◌, ◌^◌, ◌<◌, ◌≡◌, sym, ap, ◌∙◌, true, false, List, [], ◌∷◌, ◌++◌, none, some,
  arith, length, take, ◌==◌,
}
use mathlib.Core.List.{append_assoc}
use pg_batch.Prelude.Result.{ok}
use pg_batch.Bits.{Word}
use pg_batch.Spill.Bytes.{All, words}
use pg_batch.Spill.Tape.{LogicalTape}
use pg_batch.Spill.Block.{SpillWriter, header_bytes, tabulate, block_rows_of, update}
use pg_batch.Spill.Block.Data.{header_of, columns_data, block_data}
use pg_batch.Spill.Partitions.{SpillSet}
use pg_batch.Spill.Partitions.Log.{IsFull, flat}
use pg_batch.Spill.Reader.{
  parse_header, is_valid_header, block_read, read_block, reader_next, drain,
}
use pg_batch.Spill.Reader.Blocks.{
  block_of, parse_header-header_bytes, length-header_bytes, read_front, read_block-block_of,
  rows_of_block-block_of,
}

-- The bytes of a block after its header.
abbrev pub body_of : ℕ → SpillWriter → List Word
body_of ncolumns w =
    words (tabulate 0 w.nrows w.hashes)
    ++ (tabulate 0 (8 * ncolumns) w.validity ++ columns_data ncolumns 0 w)

pub valid_header :
    (ncolumns : ℕ) (w : SpillWriter)
    → ncolumns < 2 ^ 16
    → IsFull ncolumns w
    → is_valid_header ncolumns (header_of ncolumns w) ≡ true
unfolding is_valid_header
valid_header ncolumns w small h =
    let rows : w.nrows % 2 ^ 16 ≡ w.nrows = omega (arith, h.0.room) in
    let columns : ncolumns % 2 ^ 16 ≡ ncolumns = omega arith in
    rw (rows, columns) (ground (arith, h.0.room, h.1))

module _ {Tape : Type 0} ⦃tape : LogicalTape Tape⦄ where
  reader_next-block_of :
      (set : SpillSet Tape) (p : ℕ) (w : SpillWriter) (more : List Word)
      → set.ncolumns < 2 ^ 16
      → IsFull set.ncolumns w
      → tape.rest (set.tapes p) ≡ block_data set.ncolumns w ++ more
      → (u : Tape) × (reader_next set (record { partition = p; eof = false })
          ≡ ok (
            some (block_of set.ncolumns w),
            block_read set p (block_of set.ncolumns w) u,
            record { partition = p; eof = false },
          ))
        × (tape.rest u ≡ more)
  unfolding reader_next
  reader_next-block_of set p w more small full e =
      let header = header_of set.ncolumns w in
      let rows : w.nrows % 2 ^ 16 ≡ w.nrows = omega (arith, full.0.room) in
      let front =
        read_front (set.tapes p) (header_bytes header) (body_of set.ncolumns w ++ more) 8
          (e ∙ append_assoc (header_bytes header) (body_of set.ncolumns w) more)
          (sym (length-header_bytes header)) in
      let parsed = parse_header-header_bytes header (omega arith) (omega arith) (omega arith) in
      let (u, reads, left) =
        read_block-block_of set.ncolumns w ((tape.read (set.tapes p) 8).1) more (full.0) (front.1)
          header rows in
      (
        u,
        by_parts u (front.0) parsed (length-header_bytes header)
            (valid_header set.ncolumns w small full) reads,
        left,
      )
    where
      by_parts :
          (u : Tape)
          → (tape.read (set.tapes p) 8).0 ≡ header_bytes (header_of set.ncolumns w)
          → parse_header (header_bytes (header_of set.ncolumns w)) ≡ header_of set.ncolumns w
          → length (header_bytes (header_of set.ncolumns w)) ≡ 8
          → is_valid_header set.ncolumns (header_of set.ncolumns w) ≡ true
          → read_block set.ncolumns (header_of set.ncolumns w) ((tape.read (set.tapes p) 8).1)
            ≡ ok (block_of set.ncolumns w, u)
          → reader_next set (record { partition = p; eof = false })
            ≡ ok (
              some (block_of set.ncolumns w),
              block_read set p (block_of set.ncolumns w) u,
              record { partition = p; eof = false },
            )
      by_parts u a b c d f = rw (a, b, c, d, f)

  reader_next-end :
      (set : SpillSet Tape) (p : ℕ)
      → tape.rest (set.tapes p) ≡ []
      → (s : SpillSet Tape) × (reader_next set (record { partition = p; eof = false })
          ≡ ok (none, s, record { partition = p; eof = true }))
  unfolding reader_next
  reader_next-end set p e = (
    record set { tapes = update set.tapes p ((tape.read (set.tapes p) 8).1) },
    rw (tape.read-take (set.tapes p) 8 ∙ ap (take 8) e),
  )

  -- The rows are read in the order of the blocks, with one round for each block and one for the end.
  pub drain-blocks :
      (fuel : ℕ) (blocks : List SpillWriter) (set : SpillSet Tape) (p : ℕ)
      → set.ncolumns < 2 ^ 16
      → All (IsFull set.ncolumns) blocks
      → tape.rest (set.tapes p) ≡ flat (block_data set.ncolumns) blocks
      → length blocks < fuel
      → (s : SpillSet Tape) × (drain fuel set (record { partition = p; eof = false })
          ≡ ok (
              some (
                flat (block_rows_of set.ncolumns) blocks,
                s,
                record { partition = p; eof = true },
              )))
  unfolding drain flat block_read
  drain-blocks zero blocks set p small full e h = elim h [ ]
  drain-blocks (suc fuel) [] set p small full e h =
      let (s, ends) = reader_next-end set p e in (s, rw ends)
  drain-blocks (suc fuel) (w ∷ blocks) set p small full e h =
      let (u, reads, left) =
        reader_next-block_of set p w (flat (block_data set.ncolumns) blocks) small (full.0) e in
      let self : (p == p) ≡ true = ground arith in
      let (s, rest) =
        drain-blocks fuel blocks (block_read set p (block_of set.ncolumns w) u) p small (full.1)
          (rw self left) (omega arith) in
      (s, rw (reads, rest, rows_of_block-block_of set.ncolumns w full.0.0.room))
