-- ===== src/Spill/Shared/Files/Reading.antt =====
-- spill/spill.c: a round of the reader in an open file.
use pg_batch.Prelude.{
  ℕ, ◌%◌, ◌^◌, ◌<◌, ◌≡◌, refl, sym, ap, ◌∙◌, true, List, [], ◌∷◌, ◌++◌, none, some, arith, length,
  take,
}
use mathlib.Core.List.{append_assoc}
use pg_batch.Prelude.Result.{ok}
use pg_batch.Bits.{Word}
use pg_batch.Spill.Bytes.{All}
use pg_batch.Spill.Tape.{LogicalTape}
use pg_batch.Spill.Block.{SpillWriter, SpillRow, header_bytes, block_rows_of, row_at}
use pg_batch.Spill.Block.Data.{header_of, block_data}
use pg_batch.Spill.Partitions.Log.{IsFull, flat}
use pg_batch.Spill.Reader.{SpillBlock, rows_of_block, parse_header, is_valid_header, read_block}
use pg_batch.Spill.Reader.Blocks.{
  block_of, parse_header-header_bytes, length-header_bytes, read_front, read_block-block_of,
  rows_of_block-block_of, length-tabulate,
}
use pg_batch.Spill.Reader.Drain.{body_of, valid_header}
use pg_batch.Spill.Shared.Files.{
  SharedSpill, SharedReader, again, gives, shared_reader_close_file, shared_block_read, read_file,
}
use pg_batch.Spill.Shared.Files.Opened.{logs_from, IsComplete, Holding, Between}

module _ {File : Type 0} ⦃tape : LogicalTape File⦄ (shared : SharedSpill File) (p : ℕ)
    (log : ℕ → List SpillRow) (complete : IsComplete shared p log) where
  -- What a round in a file comes to.
  pub data Reading (m : ℕ) (r : SharedReader File) (f : File) (rows : List SpillRow) : Type 0 where
    file_ended :
        (s : SharedReader File)
        → read_file shared (some f, r) ≡ ok (again s)
        → Between shared p m s
        → rows ≡ logs_from m s.participant log
        → Reading m r f rows
    block_read :
        (b : SpillBlock) (s : SharedReader File) (g : File) (rest : List SpillRow)
        → read_file shared (some f, r) ≡ ok (gives b s)
        → Holding shared p log m s g rest
        → rows ≡ rows_of_block b ++ rest
        → 0 < length (rows_of_block b)
        → Reading m r f rows

  -- The bytes of a block are read as that block.
  read_file-block_of :
      (r : SharedReader File) (f : File) (w : SpillWriter) (more : List Word)
      → IsFull shared.ncolumns w
      → tape.rest f ≡ block_data shared.ncolumns w ++ more
      → (u : File) × (read_file shared (some f, r)
          ≡ ok (
              gives
                (block_of shared.ncolumns w)
                (shared_block_read shared.ncolumns r (block_of shared.ncolumns w, u))))
        × (tape.rest u ≡ more)
  unfolding read_file
  read_file-block_of r f w more full e =
      let header = header_of shared.ncolumns w in
      let rows : w.nrows % 2 ^ 16 ≡ w.nrows = omega (arith, full.0.room) in
      let front =
        read_front f (header_bytes header) (body_of shared.ncolumns w ++ more) 8
          (e ∙ append_assoc (header_bytes header) (body_of shared.ncolumns w) more)
          (sym (length-header_bytes header)) in
      let parsed =
        parse_header-header_bytes header (omega arith) (omega arith)
          (omega (arith, complete.small)) in
      let (u, reads, left) =
        read_block-block_of shared.ncolumns w ((tape.read f 8).1) more (full.0) (front.1) header
          rows in
      (
        u,
        by_parts u (front.0) parsed (length-header_bytes header)
            (valid_header shared.ncolumns w complete.small full) reads,
        left,
      )
    where
      by_parts :
          (u : File)
          → (tape.read f 8).0 ≡ header_bytes (header_of shared.ncolumns w)
          → parse_header (header_bytes (header_of shared.ncolumns w)) ≡ header_of shared.ncolumns w
          → length (header_bytes (header_of shared.ncolumns w)) ≡ 8
          → is_valid_header shared.ncolumns (header_of shared.ncolumns w) ≡ true
          → read_block shared.ncolumns (header_of shared.ncolumns w) ((tape.read f 8).1)
            ≡ ok (block_of shared.ncolumns w, u)
          → read_file shared (some f, r)
            ≡ ok (
                gives
                  (block_of shared.ncolumns w)
                  (shared_block_read shared.ncolumns r (block_of shared.ncolumns w, u)))
      by_parts u a b c d x = rw (a, b, c, d, x)

  read_file-end :
      (r : SharedReader File) (f : File)
      → tape.rest f ≡ []
      → read_file shared (some f, r) ≡ ok (again (record r { file = none }))
  unfolding read_file shared_reader_close_file
  read_file-end r f e = rw (tape.read-take f 8 ∙ ap (take 8) e)

  pub read_file-Reading :
      (m : ℕ) (r : SharedReader File) (f : File) (rows : List SpillRow)
      → Holding shared p log m r f rows
      → Reading m r f rows
  unfolding shared_block_read
  read_file-Reading m r f rows h = by_blocks h.blocks h.full h.unread h.rows_left
    where
      by_blocks :
          (blocks : List SpillWriter)
          → All (IsFull shared.ncolumns) blocks
          → tape.rest f ≡ flat (block_data shared.ncolumns) blocks
          → rows ≡ flat (block_rows_of shared.ncolumns) blocks ++ logs_from m r.participant log
          → Reading m r f rows
      by_blocks [] full unread left =
          file_ended (record r { file = none }) (read_file-end r f (unread ∙ unfold flat in refl))
            (record { file = refl; partition = h.partition; others = h.others })
            (left ∙ unfold flat in refl)
      by_blocks (w ∷ blocks) full unread left =
          let n = shared.ncolumns in
          let (u, reads, more) =
            read_file-block_of r f w (flat (block_data n) blocks) (full.0)
              (unread ∙ unfold flat in refl) in
          let back = rows_of_block-block_of n w (full.0.0.room) in
          block_read (block_of n w) (shared_block_read n r (block_of n w, u)) u
            (flat (block_rows_of n) blocks ++ logs_from m r.participant log) reads
            (record {
              blocks = blocks;
              full = full.1;
              unread = more;
              file = refl;
              partition = h.partition;
              others = h.others;
              rows_left = refl;
            })
            (left
              ∙ unfold flat in
                append_assoc (block_rows_of n w) (flat (block_rows_of n) blocks)
                  (logs_from m r.participant log)
                ∙ ap (λ l. l ++ (flat (block_rows_of n) blocks ++ logs_from m r.participant log))
                    (sym back))
            (omega (
              arith,
              full.0.1,
              ap (length {A = SpillRow}) back,
              length-tabulate 0 w.nrows (row_at n w),
            ))
