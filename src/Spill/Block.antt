-- ===== src/Spill/Block.antt =====
-- spill/spill.c: a block of up to 64 rows in a writer's memory, and the bytes of a block.
-- Arrays in memory are functions of the index; fresh memory is zero.
pub mod Store
pub mod Rows
pub mod Data
use pg_batch.Prelude.{
  ℕ, zero, suc, ◌+◌, ◌-◌, ◌*◌, ◌/◌, ◌%◌, ◌^◌, ◌≤◌, ◌<◌, ◌≡◌, Bool, true, false, List, [], ◌∷◌, ◌++◌,
  Option, none, some, map, length, ltb, ◌==◌, if◌then◌else◌,
}
use pg_batch.Prelude.Int.{ℤ, pos}
use pg_batch.Postgres.{fits_int32, to_uint32}
use pg_batch.Bits.{Word, test_bit, bit_or, one_at, zeros}
use pg_batch.Spill.Bytes.{bytes, words, IsUint32}
use pg_batch.Spill.Tape.{LogicalTape}

-- PG_BATCH_SPILL_BLOCK_ROWS and SPILL_MAGIC
abbrev pub block_rows : ℕ
block_rows = 64

abbrev pub spill_magic : ℕ
spill_magic = 0x5047_4253

pub record SpillHeader : Type 0 where
  pub magic : ℕ
  pub nrows : ℕ
  pub ncolumns : ℕ

pub record SpillWriter : Type 0 where
  pub nrows : ℕ
  pub hashes : ℕ → ℕ
  pub values : ℕ → ℤ
  pub validity : ℕ → Word

-- MemoryContextAllocZero
abbrev pub fresh_writer : SpillWriter
fresh_writer = record { nrows = 0; hashes = λ i. 0; values = λ i. pos 0; validity = λ i. zeros 8 }

-- array[k] = v
abbrev pub update {ℓ} : {A : Type ℓ} → (ℕ → A) → ℕ → A → ℕ → A
update f k v i = if i == k then v else f i

-- f(start), …, f(start + n - 1)
unfoldable pub tabulate {ℓ} : {A : Type ℓ} → ℕ → ℕ → (ℕ → A) → List A
tabulate start zero f = []
tabulate start (suc n) f = f start ∷ tabulate (start + 1) n f

-- What the loop over the columns stores of one cell: its value, and its validity bit if it has one.
pub store_cell : ℕ → ℕ → ℤ × Bool → SpillWriter → SpillWriter
store_cell column dest (value, valid) w =
    let byte = column * 8 + dest / 8 in
    record w {
      values = update w.values (column * 64 + dest) value;
      validity =
          if valid
          then update w.validity byte (bit_or (w.validity byte) (one_at 8 (dest % 8)))
          else w.validity;
    }

-- for (int column = 0; column < ncolumns; column++)
store_cells : ℕ → ℕ → ℕ → (ℕ → ℤ × Bool) → SpillWriter → SpillWriter
store_cells zero column dest cell w = w
store_cells (suc n) column dest cell w =
    store_cells n (column + 1) dest cell (store_cell column dest (cell column) w)

-- `dest = writer->nrows++`, the hash and the cells.
unfoldable pub store_row : ℕ → ℕ → (ℕ → ℤ × Bool) → SpillWriter → SpillWriter
unfolding store_cells store_cell
store_row ncolumns hash cell w =
    let dest = w.nrows in
    store_cells ncolumns 0 dest cell
      (record w { nrows = dest + 1; hashes = update w.hashes dest hash })

abbrev pub header_bytes : SpillHeader → List Word
header_bytes h = bytes 4 h.magic ++ (bytes 2 h.nrows ++ bytes 2 h.ncolumns)

abbrev pub column_bytes : SpillWriter → ℕ → List Word
column_bytes w column = words (map to_uint32 (tabulate (column * 64) w.nrows w.values))

module _ {Tape : Type 0} ⦃tape : LogicalTape Tape⦄ where
  -- for (int column = 0; column < ncolumns; column++) LogicalTapeWrite(…)
  write_columns : ℕ → ℕ → SpillWriter → Tape → Tape
  write_columns zero column w t = t
  write_columns (suc n) column w t =
      write_columns n (column + 1) w (tape.write t (column_bytes w column))

  -- The writes of one block: header, hashes, validity bitmaps, columns. The header's counts are
  -- uint16.
  pub write_block : ℕ → SpillWriter → Tape → Tape
  unfolding write_columns
  write_block ncolumns w t =
      let header : SpillHeader = record {
        magic = spill_magic;
        nrows = w.nrows % 2 ^ 16;
        ncolumns = ncolumns % 2 ^ 16;
      } in
      let after_header = tape.write t (header_bytes header) in
      let after_hashes = tape.write after_header (words (tabulate 0 w.nrows w.hashes)) in
      let after_validity = tape.write after_hashes (tabulate 0 (8 * ncolumns) w.validity) in
      write_columns ncolumns 0 w after_validity

-- `nrows = 0` and MemSet(validity, 0, 8 * ncolumns)
unfoldable pub reset_block : ℕ → SpillWriter → SpillWriter
reset_block ncolumns w = record w {
  nrows = 0;
  validity = λ i. if ltb i (8 * ncolumns) then zeros 8 else w.validity i;
}

-- sizeof(SpillHeader) + sizeof(uint32) * nrows + sizeof(uint64) * ncolumns + …
pub block_bytes : ℕ → ℕ → ℕ
block_bytes ncolumns nrows = 8 + 4 * nrows + 8 * ncolumns + 4 * ncolumns * nrows

-- sizeof(SpillWriter) is 280: a count, 64 hashes and two pointers, aligned. add_size and mul_size
-- are exact here: a tuple has at most 1600 columns, so nothing overflows.
pub writer_bytes : ℕ → ℕ
writer_bytes ncolumns = 280 + (4 * 64 * ncolumns + 8 * ncolumns)

-- A row of a block as its reader sees it: the hash and, for each column, the value or null.
pub record SpillRow : Type 0 where
  pub hash : ℕ
  pub cells : List (Option ℤ)

abbrev pub valid_at : SpillWriter → ℕ → ℕ → Bool
valid_at w column row = test_bit (w.validity (column * 8 + row / 8)) (row % 8)

abbrev pub cell_at : SpillWriter → ℕ → ℕ → Option ℤ
cell_at w column row = if valid_at w column row then some (w.values (column * 64 + row)) else none

abbrev pub row_at : ℕ → SpillWriter → ℕ → SpillRow
row_at ncolumns w row = record {
  hash = w.hashes row;
  cells = tabulate 0 ncolumns (λ column. cell_at w column row);
}

abbrev pub block_rows_of : ℕ → SpillWriter → List SpillRow
block_rows_of ncolumns w = tabulate 0 w.nrows (row_at ncolumns w)

-- What holds of a writer at all times: the types of its arrays, and no validity bit beyond its rows.
pub record IsBlock (ncolumns : ℕ) (w : SpillWriter) : Type 0 where
  pub room : w.nrows ≤ 64
  pub bytes8 : (k : ℕ) → length (w.validity k) ≡ 8
  pub clear :
      (column row : ℕ)
      → column < ncolumns
      → w.nrows ≤ row
      → row < 64
      → valid_at w column row ≡ false
  pub hash32 : (i : ℕ) → IsUint32 (w.hashes i)
  pub value32 : (i : ℕ) → fits_int32 (w.values i) ≡ true
