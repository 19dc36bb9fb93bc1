-- ===== src/Compressed/Encode.antt =====
-- examples/compressed_tam/compressed.c: the encodings of one column of a batch.
-- The bytes of a column are the list of the int8, int16 or int32 values that the code stores there.
pub mod RoundTrip
use pg_batch.Prelude.{
  ℕ, zero, suc, ◌+◌, ◌-◌, ◌*◌, ◌%◌, ◌^◌, Bool, true, false, not, ◌&&◌, List, [], ◌∷◌, Option, none,
  some, get_or, take, replicate, ltb, if◌then◌else◌, ◌==◌,
}
use pg_batch.Prelude.Int.{ℤ, pos, negsuc, ◌+ℤ◌, ◌-ℤ◌}
use pg_batch.Bits.{Word, test_bit, zeros}
use pg_batch.Kernels.Arithmetic.{set_valid}
use pg_batch.Kernels.Vector.{Int4Vector, packed}
use pg_batch.Compressed.{ColumnData}

pub data Compression : Type 0 where
  plain delta8 delta16 : Compression

pub record CompressedColumn : Type 0 where
  pub encoding : Compression
  pub validity : List Word
  pub null_count : ℕ
  pub base : ℤ
  pub data_values : List ℤ

-- The value of a row, or the one before it where the row is null.
abbrev pub carried : ColumnData → ℤ → ℕ → ℤ
carried c last row = if test_bit c.nonnull_rows row then get_or c.values row (pos 0) else last

-- normalized[row], …, for the next `n` rows
pub normalize : ColumnData → ℤ → ℕ → ℕ → List ℤ
normalize c last row zero = []
normalize c last row (suc n) = carried c last row ∷ normalize c (carried c last row) (row + 1) n

-- A value of a signed integer of which `half` is half the range: PG_INT8_MIN … PG_INT8_MAX for 128.
abbrev pub fits : ℕ → ℤ → Bool
fits half (pos n) = ltb n half
fits half (negsuc n) = ltb n half

-- The loop over the deltas.
pub deltas_fit : ℕ → ℤ → List ℤ → Bool
deltas_fit half last [] = true
deltas_fit half last (value ∷ rest) = fits half (value -ℤ last) && deltas_fit half value rest

-- The encoding, the base and the size of the data in bytes.
pub record Choice : Type 0 where
  pub encoding : Compression
  pub base : ℤ
  pub data_size : ℕ

abbrev pub first_of : List ℤ → ℤ
first_of normalized = get_or normalized 0 (pos 0)

abbrev pub rest_of : List ℤ → List ℤ
rest_of [] = []
rest_of (value ∷ rest) = rest

pub choose_compression : ColumnData → ℕ → Choice
choose_compression c nrows =
    let normalized = normalize c (pos 0) 0 nrows in
    let base = first_of normalized in
    if deltas_fit 0x80 base (rest_of normalized)
    then record { encoding = delta8; base = base; data_size = nrows - 1 }
    else if deltas_fit 0x8000 base (rest_of normalized)
    then record { encoding = delta16; base = base; data_size = 2 * (nrows - 1) }
    else record { encoding = plain; base = base; data_size = 4 * nrows }

-- `(int8) delta`, `(int16) delta`: the value modulo the range.
pub wrap : ℕ → ℤ → ℤ
wrap half (pos n) =
    let m = n % (2 * half) in if ltb m half then pos m else negsuc (2 * half - 1 - m)
wrap half (negsuc n) =
    let m = n % (2 * half) in if ltb m half then negsuc m else pos (2 * half - 1 - m)

-- The first loop of write_column, for the next `n` rows: the validity map and the number of nulls.
pub write_validity : ColumnData → ℕ → ℕ → List Word → ℕ → List Word × ℕ
write_validity c row zero validity null_count = (validity, null_count)
write_validity c row (suc n) validity null_count =
    if test_bit c.nonnull_rows row
    then write_validity c (row + 1) n (set_valid validity row) null_count
    else write_validity c (row + 1) n validity (null_count + 1)

-- The second loop.
pub write_deltas : ℕ → ColumnData → ℤ → ℕ → ℕ → List ℤ
write_deltas half c last row zero = []
write_deltas half c last row (suc n) =
    wrap half (carried c last row -ℤ last) ∷ write_deltas half c (carried c last row) (row + 1) n

pub write_data : Compression → ℤ → ColumnData → ℕ → List ℤ
unfolding write_deltas
write_data plain base c nrows = take nrows c.values
write_data delta8 base c nrows = write_deltas 0x80 c base 1 (nrows - 1)
write_data delta16 base c nrows = write_deltas 0x8000 c base 1 (nrows - 1)

-- choose_compression and write_column, as build_compressed_batch calls them for a column: the
-- validity map of 64 bits and the count start as zeros.
pub build_column : ColumnData → ℕ → CompressedColumn
unfolding choose_compression write_validity write_data
build_column c nrows =
    let choice = choose_compression c nrows in
    let (validity, null_count) = write_validity c 0 nrows (replicate 8 (zeros 8)) 0 in
    record {
      encoding = choice.encoding;
      validity = validity;
      null_count = null_count;
      base = choice.base;
      data_values = write_data choice.encoding choice.base c nrows;
    }

-- The loop of column_values.
pub sum_deltas : ℤ → List ℤ → List ℤ
sum_deltas last [] = []
sum_deltas last (delta ∷ rest) = (last +ℤ delta) ∷ sum_deltas (last +ℤ delta) rest

pub decode : Compression → ℤ → List ℤ → List ℤ
unfolding sum_deltas
decode plain base data_values = data_values
decode delta8 base data_values = base ∷ sum_deltas base data_values
decode delta16 base data_values = base ∷ sum_deltas base data_values

pub column_values : CompressedColumn → List ℤ
unfolding decode
column_values stored = decode stored.encoding stored.base stored.data_values

-- prepare_column and get_int4_column: the view of the rows from `start` on.
pub int4_column : CompressedColumn → ℕ → Int4Vector
int4_column stored start =
    packed (column_values stored) (if stored.null_count == 0 then none else some stored.validity)
      start
