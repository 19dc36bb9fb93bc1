-- ===== src/Spill/Block/Data.antt =====
-- spill/spill.c: the bytes that a flush appends to a tape.
use pg_batch.Prelude.{ℕ, zero, suc, ◌+◌, ◌*◌, ◌%◌, ◌^◌, ◌≡◌, sym, ◌∙◌, List, [], ◌++◌}
use mathlib.Core.List.{append-nil, append_assoc}
use pg_batch.Bits.{Word}
use pg_batch.Spill.Bytes.{words}
use pg_batch.Spill.Tape.{LogicalTape}
use pg_batch.Spill.Block.{
  SpillHeader, SpillWriter, spill_magic, header_bytes, column_bytes, write_columns, write_block,
  tabulate,
}

-- The header of a block, and the bytes of its columns from one on.
abbrev pub header_of : ℕ → SpillWriter → SpillHeader
header_of ncolumns w = record {
  magic = spill_magic;
  nrows = w.nrows % 2 ^ 16;
  ncolumns = ncolumns % 2 ^ 16;
}

unfoldable pub columns_data : ℕ → ℕ → SpillWriter → List Word
columns_data zero column w = []
columns_data (suc n) column w = column_bytes w column ++ columns_data n (column + 1) w

abbrev pub block_data : ℕ → SpillWriter → List Word
block_data ncolumns w =
    header_bytes (header_of ncolumns w)
    ++ (words (tabulate 0 w.nrows w.hashes)
        ++ (tabulate 0 (8 * ncolumns) w.validity ++ columns_data ncolumns 0 w))

module _ {Tape : Type 0} ⦃tape : LogicalTape Tape⦄ where
  contents-write_columns :
      (n column : ℕ) (w : SpillWriter) (t : Tape)
      → tape.contents (write_columns n column w t) ≡ tape.contents t ++ columns_data n column w
  unfolding write_columns columns_data
  contents-write_columns zero column w t = sym (append-nil (tape.contents t))
  contents-write_columns (suc n) column w t =
      contents-write_columns n (column + 1) w (tape.write t (column_bytes w column))
      ∙ rw (tape.contents-write t (column_bytes w column))
          (append_assoc (tape.contents t) (column_bytes w column) (columns_data n (column + 1) w))

  pub contents-write_block :
      (ncolumns : ℕ) (w : SpillWriter) (t : Tape)
      → tape.contents (write_block ncolumns w t) ≡ tape.contents t ++ block_data ncolumns w
  unfolding write_block
  contents-write_block ncolumns w t =
      let header = tape.write t (header_bytes (header_of ncolumns w)) in
      let hashes = tape.write header (words (tabulate 0 w.nrows w.hashes)) in
      let validity = tape.write hashes (tabulate 0 (8 * ncolumns) w.validity) in
      contents-write_columns ncolumns 0 w validity ∙ simp (tape.contents-write, append_assoc)
