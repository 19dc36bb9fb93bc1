-- ===== src/Spill/Reader/Blocks.antt =====
-- spill/spill.c: the reader reads back the block that a flush wrote.
use pg_batch.Prelude.{
  ℕ, zero, suc, ◌+◌, ◌*◌, ◌/◌, ◌^◌, ◌≤◌, ◌<◌, ◌≡◌, refl, sym, ap, ◌∙◌, true, List, [], ◌∷◌, ◌++◌,
  map, arith, length, length-map, get_or, take, drop, ◌==◌,
}
use mathlib.Core.List.{append_assoc}
use pg_batch.Prelude.Int.{ℤ, pos}
use pg_batch.Prelude.Result.{ok}
use pg_batch.Postgres.{fits_int32, to_uint32}
use pg_batch.Bits.{Word}
use pg_batch.Spill.Bytes.{
  bytes, words, read_words, to_int32, All, IsUint32, from_bytes-bytes_2, from_bytes-bytes_4,
  length-words, read_words-words, take-append, drop-append, to_uint32-IsUint32, to_int32-to_uint32,
}
use pg_batch.Spill.Tape.{LogicalTape}
use pg_batch.Spill.Block.{
  SpillHeader, SpillWriter, IsBlock, header_bytes, column_bytes, tabulate, cell_at, row_at,
  block_rows_of,
}
use pg_batch.Spill.Block.Data.{columns_data}
use pg_batch.Spill.Block.Store.{tabulate_congr}
use pg_batch.Spill.Partitions.Write.{first_rows}
use pg_batch.Spill.Reader.{
  SpillBlock, block_cell, block_row, rows_of_block, parse_header, read_columns, read_block,
}

module _ {ℓ} {A : Type ℓ} where
  pub length-tabulate : (start n : ℕ) (f : ℕ → A) → length (tabulate start n f) ≡ n
  unfolding tabulate
  length-tabulate start zero f = refl
  length-tabulate start (suc n) f = ap suc (length-tabulate (start + 1) n f)

  get_or-tabulate :
      (start n i : ℕ) (f : ℕ → A) (d : A) → i < n → get_or (tabulate start n f) i d ≡ f (start + i)
  unfolding tabulate
  get_or-tabulate start zero i f d h = elim h [ ]
  get_or-tabulate start (suc n) zero f d h = ap f (omega arith)
  get_or-tabulate start (suc n) (suc i) f d h =
      get_or-tabulate (start + 1) n i f d (omega arith) ∙ ap f (omega arith)

  All-tabulate {κ} :
      (P : A → Type κ) (start n : ℕ) (f : ℕ → A) → ((i : ℕ) → P (f i)) → All P (tabulate start n f)
  unfolding tabulate
  All-tabulate P start zero f h = tt
  All-tabulate P start (suc n) f h = (h start, All-tabulate P (start + 1) n f h)

ints_back : (xs : List ℤ) → All (λ a. fits_int32 a ≡ true) xs → map to_int32 (map to_uint32 xs) ≡ xs
ints_back [] h = refl
ints_back (x ∷ xs) h = rw (to_int32-to_uint32 x h.0) (ap (◌∷◌ x) (ints_back xs h.1))

map-All : (xs : List ℤ) → All IsUint32 (map to_uint32 xs)
map-All [] = tt
map-All (x ∷ xs) = (to_uint32-IsUint32 x, map-All xs)

column_back :
    (xs : List ℤ) (n : ℕ)
    → n ≡ length xs
    → All (λ a. fits_int32 a ≡ true) xs
    → map to_int32 (read_words n (words (map to_uint32 xs))) ≡ xs
column_back xs n e h =
    rw (e ∙ sym (length-map to_uint32 xs), read_words-words (map to_uint32 xs) (map-All xs))
      (ints_back xs h)

pub parse_header-header_bytes :
    (h : SpillHeader)
    → IsUint32 h.magic
    → h.nrows < 2 ^ 16
    → h.ncolumns < 2 ^ 16
    → parse_header (header_bytes h) ≡ h
unfolding parse_header bytes
parse_header-header_bytes h m n c =
    ground
      (arith, from_bytes-bytes_4 h.magic, from_bytes-bytes_2 h.nrows, from_bytes-bytes_2 h.ncolumns)

pub length-header_bytes : (h : SpillHeader) → length (header_bytes h) ≡ 8
unfolding bytes
length-header_bytes h = refl

-- The columns of a block, as lists.
abbrev columns_of : ℕ → ℕ → SpillWriter → List (List ℤ)
columns_of n column w = tabulate column n (λ c. tabulate (c * 64) w.nrows w.values)

module _ {Tape : Type 0} ⦃tape : LogicalTape Tape⦄ where
  -- A read of the front part of what is left.
  pub read_front :
      (t : Tape) (front more : List Word) (n : ℕ)
      → tape.rest t ≡ front ++ more
      → n ≡ length front
      → ((tape.read t n).0 ≡ front) × (tape.rest ((tape.read t n).1) ≡ more)
  read_front t front more n e l = (
    tape.read-take t n ∙ ap (take n) e ∙ take-append front more n l,
    tape.read-drop t n ∙ ap (drop n) e ∙ drop-append front more n l,
  )

  read_columns-columns_data :
      (n column ncolumns : ℕ) (w : SpillWriter) (t : Tape) (more : List Word)
      → IsBlock ncolumns w
      → tape.rest t ≡ columns_data n column w ++ more
      → (u : Tape) × (read_columns n w.nrows t ≡ ok (columns_of n column w, u))
        × (tape.rest u ≡ more)
  unfolding read_columns columns_data tabulate
  read_columns-columns_data zero column ncolumns w t more v e = (t, refl, e)
  read_columns-columns_data (suc n) column ncolumns w t more v e =
      let xs = tabulate (column * 64) w.nrows w.values in
      let len : 4 * w.nrows ≡ length (column_bytes w column) = omega (
        arith,
        length-words (map to_uint32 xs),
        length-map to_uint32 xs,
        length-tabulate (column * 64) w.nrows w.values,
      ) in
      let front =
        read_front t (column_bytes w column) (columns_data n (column + 1) w ++ more) (4 * w.nrows)
          (e ∙ append_assoc (column_bytes w column) (columns_data n (column + 1) w) more) len in
      let (u, reads, left) =
        read_columns-columns_data n (column + 1) ncolumns w ((tape.read t (4 * w.nrows)).1) more v
          (front.1) in
      let exact : (length (column_bytes w column) == 4 * w.nrows) ≡ true = ground (arith, len) in
      let back =
        column_back xs w.nrows (sym (length-tabulate (column * 64) w.nrows w.values))
          (All-tabulate (λ a. fits_int32 a ≡ true) (column * 64) w.nrows w.values v.value32) in
      (u, rw (front.0, exact, reads, back), left)

-- The block that a reader makes of what a flush wrote.
abbrev pub block_of : ℕ → SpillWriter → SpillBlock
block_of ncolumns w = record {
  nrows = w.nrows;
  ncolumns = ncolumns;
  selection = first_rows w.nrows;
  hashes = tabulate 0 w.nrows w.hashes;
  values = columns_of ncolumns 0 w;
  validity = tabulate 0 (8 * ncolumns) w.validity;
}

block_row-row_at :
    (ncolumns : ℕ) (w : SpillWriter) (r : ℕ)
    → r < w.nrows
    → w.nrows ≤ 64
    → block_row (block_of ncolumns w) r ≡ row_at ncolumns w r
block_row-row_at ncolumns w r small room =
    let z : 0 + r ≡ r = omega arith in
    rw (
      get_or-tabulate 0 w.nrows r w.hashes 0 small,
      z,
      tabulate_congr 0 ncolumns (block_cell (block_of ncolumns w) r) (λ c. cell_at w c r)
          (λ c low high. same_cell c (omega arith)),
    )
  where
    same_cell : (c : ℕ) → c < ncolumns → block_cell (block_of ncolumns w) r c ≡ cell_at w c r
    same_cell c inside =
        let byte = get_or-tabulate 0 (8 * ncolumns) (c * 8 + r / 8) w.validity [] (omega arith) in
        let zb : 0 + (c * 8 + r / 8) ≡ c * 8 + r / 8 = omega arith in
        let zc : 0 + c ≡ c = omega arith in
        let column =
          get_or-tabulate 0 ncolumns c (λ c. tabulate (c * 64) w.nrows w.values) [] inside in
        let value = get_or-tabulate (c * 64) w.nrows r w.values (pos 0) small in
        rw (byte, zb, column, zc, value)

pub rows_of_block-block_of :
    (ncolumns : ℕ) (w : SpillWriter)
    → w.nrows ≤ 64
    → rows_of_block (block_of ncolumns w) ≡ block_rows_of ncolumns w
unfolding rows_of_block
rows_of_block-block_of ncolumns w room =
    tabulate_congr 0 w.nrows (block_row (block_of ncolumns w)) (row_at ncolumns w)
      (λ r low high. block_row-row_at ncolumns w r (omega arith) room)

module _ {Tape : Type 0} ⦃tape : LogicalTape Tape⦄ where
  pub read_block-block_of :
      (ncolumns : ℕ) (w : SpillWriter) (t : Tape) (more : List Word)
      → IsBlock ncolumns w
      → tape.rest t
        ≡ (words (tabulate 0 w.nrows w.hashes)
            ++ (tabulate 0 (8 * ncolumns) w.validity ++ columns_data ncolumns 0 w))
          ++ more
      → (h : SpillHeader) → h.nrows ≡ w.nrows
      → (u : Tape) × (read_block ncolumns h t ≡ ok (block_of ncolumns w, u)) × (tape.rest u ≡ more)
  unfolding read_block
  read_block-block_of ncolumns w t more v e h count =
      let hashes = tabulate 0 w.nrows w.hashes in
      let bitmaps = tabulate 0 (8 * ncolumns) w.validity in
      let columns = columns_data ncolumns 0 w in
      let len : 4 * w.nrows ≡ length (words hashes) =
        omega (arith, length-words hashes, length-tabulate 0 w.nrows w.hashes) in
      let first =
        read_front t (words hashes) ((bitmaps ++ columns) ++ more) (4 * w.nrows)
          (e ∙ append_assoc (words hashes) (bitmaps ++ columns) more) len in
      let second =
        read_front ((tape.read t (4 * w.nrows)).1) bitmaps (columns ++ more) (8 * ncolumns)
          (first.1 ∙ append_assoc bitmaps columns more)
          (sym (length-tabulate 0 (8 * ncolumns) w.validity)) in
      let (u, reads, left) =
        read_columns-columns_data ncolumns 0 ncolumns w
          ((tape.read ((tape.read t (4 * w.nrows)).1) (8 * ncolumns)).1) more v (second.1) in
      let exact : (length (words hashes) == 4 * w.nrows) ≡ true = ground (arith, len) in
      let exact_bits : (length bitmaps == 8 * ncolumns) ≡ true =
        ground (arith, length-tabulate 0 (8 * ncolumns) w.validity) in
      let back : read_words w.nrows (words hashes) ≡ hashes =
        ap (λ n. read_words n (words hashes)) (sym (length-tabulate 0 w.nrows w.hashes))
        ∙ read_words-words hashes (All-tabulate IsUint32 0 w.nrows w.hashes v.hash32) in
      (u, by_parts u (first.0) (second.0) reads exact exact_bits back, left)
    where
      by_parts :
          (u : Tape)
          → (tape.read t (4 * w.nrows)).0 ≡ words (tabulate 0 w.nrows w.hashes)
          → (tape.read ((tape.read t (4 * w.nrows)).1) (8 * ncolumns)).0
            ≡ tabulate 0 (8 * ncolumns) w.validity
          → read_columns ncolumns w.nrows
              ((tape.read ((tape.read t (4 * w.nrows)).1) (8 * ncolumns)).1)
            ≡ ok (columns_of ncolumns 0 w, u)
          → (length (words (tabulate 0 w.nrows w.hashes)) == 4 * w.nrows) ≡ true
          → (length (tabulate 0 (8 * ncolumns) w.validity) == 8 * ncolumns) ≡ true
          → read_words w.nrows (words (tabulate 0 w.nrows w.hashes)) ≡ tabulate 0 w.nrows w.hashes
          → read_block ncolumns h t ≡ ok (block_of ncolumns w, u)
      by_parts u a b c d e f = rw (count, a, b, c, d, e, f)
