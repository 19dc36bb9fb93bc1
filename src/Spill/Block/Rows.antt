-- ===== src/Spill/Block/Rows.antt =====
-- spill/spill.c: the inner loops of the two write functions, and the block that they leave.
use pg_batch.Prelude.{
  ℕ, zero, suc, ◌+◌, ◌*◌, ◌/◌, ◌%◌, ◌≤◌, ◌<◌, ◌≡◌, ◌≢◌, refl, sym, ap, ◌∙◌, inl, inr, Bool, true,
  false, [], ◌∷◌, ◌++◌, arith, ltb, ◌==◌, ==_iff, Bool-cases, get_or-replicate,
}
use pg_batch.Prelude.Int.{ℤ}
use pg_batch.Postgres.{fits_int32}
use pg_batch.Spill.Bytes.{IsUint32}
use pg_batch.Spill.Block.{
  SpillWriter, SpillRow, IsBlock, fresh_writer, store_cell, store_cells, store_row, reset_block,
  tabulate, valid_at, cell_at, row_at, block_rows_of, update,
}
use pg_batch.Spill.Block.Store.{
  HasBytes, stored, store_cell-HasBytes, valid_at-store_other, cell_at-store_other,
  cell_at-store_cell, tabulate_congr, tabulate_snoc,
}

valid_at-cells_other :
    (n column dest : ℕ) (cell : ℕ → ℤ × Bool) (w : SpillWriter) (c r : ℕ)
    → r < 64
    → dest < 64
    → ((column ≤ c) × (r ≡ dest) → ⊥)
    → valid_at (store_cells n column dest cell w) c r ≡ valid_at w c r
unfolding store_cells
valid_at-cells_other zero column dest cell w c r hr hd other = refl
valid_at-cells_other (suc n) column dest cell w c r hr hd other =
    valid_at-cells_other n (column + 1) dest cell (store_cell column dest (cell column) w) c r hr hd
      (λ both. other (omega (arith, both.0), both.1))
    ∙ valid_at-store_other column dest (cell column) w c r hr hd
        (λ both. other (omega (arith, both.0), both.1))

cell_at-cells_other :
    (n column dest : ℕ) (cell : ℕ → ℤ × Bool) (w : SpillWriter) (c r : ℕ)
    → r < 64
    → dest < 64
    → ((column ≤ c) × (r ≡ dest) → ⊥)
    → cell_at (store_cells n column dest cell w) c r ≡ cell_at w c r
unfolding store_cells
cell_at-cells_other zero column dest cell w c r hr hd other = refl
cell_at-cells_other (suc n) column dest cell w c r hr hd other =
    cell_at-cells_other n (column + 1) dest cell (store_cell column dest (cell column) w) c r hr hd
      (λ both. other (omega (arith, both.0), both.1))
    ∙ cell_at-store_other column dest (cell column) w c r hr hd
        (λ both. other (omega (arith, both.0), both.1))

cell_at-cells :
    (n column dest : ℕ) (cell : ℕ → ℤ × Bool) (w : SpillWriter) (c : ℕ)
    → dest < 64
    → column ≤ c
    → c < column + n
    → valid_at w c dest ≡ false
    → cell_at (store_cells n column dest cell w) c dest ≡ stored (cell c)
unfolding store_cells
cell_at-cells zero column dest cell w c hd low high clear = absurd (omega arith)
cell_at-cells (suc n) column dest cell w c hd low high clear = elim (Bool-cases (c == column)) [
  | inl e ↦
      let here : c ≡ column = (==_iff _ _).0 e in
      rw here (
        cell_at-cells_other n (column + 1) dest cell (store_cell column dest (cell column) w) column
          dest hd hd (λ both. omega (arith, both.0))
        ∙ cell_at-store_cell column dest (cell column) w hd
            (ap (λ k. valid_at w k dest) (sym here) ∙ clear))
  | inr e ↦
      let apart : c ≢ column = λ h. ground (arith, h, e) in
      cell_at-cells n (column + 1) dest cell (store_cell column dest (cell column) w) c hd
        (omega (arith, apart)) (omega arith)
        (valid_at-store_other column dest (cell column) w c dest hd hd (λ both. apart both.0)
          ∙ clear)
]

store_cells-counts :
    (n column dest : ℕ) (cell : ℕ → ℤ × Bool) (w : SpillWriter)
    → ((store_cells n column dest cell w).nrows ≡ w.nrows)
      × ((store_cells n column dest cell w).hashes ≡ w.hashes)
unfolding store_cells store_cell
store_cells-counts zero column dest cell w = (refl, refl)
store_cells-counts (suc n) column dest cell w =
    store_cells-counts n (column + 1) dest cell (store_cell column dest (cell column) w)

store_cells-HasBytes :
    (n column dest : ℕ) (cell : ℕ → ℤ × Bool) (w : SpillWriter)
    → HasBytes w
    → HasBytes (store_cells n column dest cell w)
unfolding store_cells
store_cells-HasBytes zero column dest cell w h = h
store_cells-HasBytes (suc n) column dest cell w h =
    store_cells-HasBytes n (column + 1) dest cell (store_cell column dest (cell column) w)
      (store_cell-HasBytes column dest (cell column) w h)

abbrev Fits : SpillWriter → Type 0
Fits w = (i : ℕ) → fits_int32 (w.values i) ≡ true

-- The values that a row brings are int32s.
abbrev pub AreInt32 : (ℕ → ℤ × Bool) → Type 0
AreInt32 cell = (c : ℕ) → fits_int32 ((cell c).0) ≡ true

store_cell-Fits :
    (column dest : ℕ) (cell : ℤ × Bool) (w : SpillWriter)
    → fits_int32 (cell.0) ≡ true
    → Fits w
    → Fits (store_cell column dest cell w)
unfolding store_cell
store_cell-Fits column dest (value, valid) w hv h i = elim (Bool-cases (i == column * 64 + dest)) [
  | inl e ↦ rw e hv
  | inr e ↦ rw e (h i)
]

store_cells-Fits :
    (n column dest : ℕ) (cell : ℕ → ℤ × Bool) (w : SpillWriter)
    → AreInt32 cell
    → Fits w
    → Fits (store_cells n column dest cell w)
unfolding store_cells
store_cells-Fits zero column dest cell w hv h = h
store_cells-Fits (suc n) column dest cell w hv h =
    store_cells-Fits n (column + 1) dest cell (store_cell column dest (cell column) w) hv
      (store_cell-Fits column dest (cell column) w (hv column) h)

-- The row that the inner loops of a write store.
abbrev pub new_row : ℕ → ℕ → (ℕ → ℤ × Bool) → SpillRow
new_row ncolumns hash cell = record {
  hash = hash;
  cells = tabulate 0 ncolumns (λ c. stored (cell c));
}

module _ (ncolumns hash : ℕ) (cell : ℕ → ℤ × Bool) (w : SpillWriter) (block : IsBlock ncolumns w)
    (room : w.nrows < 64) where
  begun : SpillWriter
  begun = record w { nrows = w.nrows + 1; hashes = update w.hashes w.nrows hash }

  pub nrows-store_row : (store_row ncolumns hash cell w).nrows ≡ w.nrows + 1
  unfolding store_row begun
  nrows-store_row = (store_cells-counts ncolumns 0 w.nrows cell begun).0

  old_row :
      (r : ℕ)
      → r < w.nrows
      → row_at ncolumns (store_row ncolumns hash cell w) r ≡ row_at ncolumns w r
  unfolding store_row begun
  old_row r h =
      let apart : (r == w.nrows) ≡ false = ground arith in
      let hashes = (store_cells-counts ncolumns 0 w.nrows cell begun).1 in
      rw (
        hashes,
        apart,
        tabulate_congr 0 ncolumns (λ c. cell_at (store_cells ncolumns 0 w.nrows cell begun) c r)
            (λ c. cell_at w c r)
            (λ c a b.
              cell_at-cells_other ncolumns 0 w.nrows cell begun c r (omega arith) room
                (λ both. omega (arith, both.1))),
      )

  last_row : row_at ncolumns (store_row ncolumns hash cell w) w.nrows ≡ new_row ncolumns hash cell
  unfolding store_row begun
  last_row =
      let here : (w.nrows == w.nrows) ≡ true = ground arith in
      let hashes = (store_cells-counts ncolumns 0 w.nrows cell begun).1 in
      rw (
        hashes,
        here,
        tabulate_congr 0 ncolumns
            (λ c. cell_at (store_cells ncolumns 0 w.nrows cell begun) c w.nrows)
            (λ c. stored (cell c))
            (λ c a b.
              cell_at-cells ncolumns 0 w.nrows cell begun c room (omega arith) (omega arith)
                (block.clear c w.nrows (omega arith) (omega arith) room)),
      )

  pub block_rows-store_row :
      block_rows_of ncolumns (store_row ncolumns hash cell w)
      ≡ block_rows_of ncolumns w ++ new_row ncolumns hash cell ∷ []
  block_rows-store_row =
      let e : w.nrows + 1 ≡ suc w.nrows = omega arith in
      ap (λ n. tabulate 0 n (row_at ncolumns (store_row ncolumns hash cell w)))
        (nrows-store_row ∙ e)
      ∙ tabulate_snoc 0 w.nrows (row_at ncolumns (store_row ncolumns hash cell w))
      ∙ let z : 0 + w.nrows ≡ w.nrows = omega arith in
        rw (
          z,
          last_row,
          tabulate_congr 0 w.nrows (row_at ncolumns (store_row ncolumns hash cell w))
              (row_at ncolumns w) (λ r a b. old_row r (omega arith)),
        )

  pub store_row-IsBlock :
      IsUint32 hash → AreInt32 cell → IsBlock ncolumns (store_row ncolumns hash cell w)
  unfolding store_row begun
  store_row-IsBlock hh hv = record {
    room = rw ((store_cells-counts ncolumns 0 w.nrows cell begun).0) (omega arith);
    bytes8 = store_cells-HasBytes ncolumns 0 w.nrows cell begun block.bytes8;
    clear = λ c r small low high.
        let beyond : w.nrows + 1 ≤ r =
          omega (arith, (store_cells-counts ncolumns 0 w.nrows cell begun).0) in
        valid_at-cells_other ncolumns 0 w.nrows cell begun c r high room
          (λ both. omega (arith, both.1))
        ∙ block.clear c r small (omega arith) high;
    hash32 = λ i.
        rw ((store_cells-counts ncolumns 0 w.nrows cell begun).1)
          (elim (Bool-cases (i == w.nrows)) [ inl e ↦ rw e hh | inr e ↦ rw e (block.hash32 i) ]);
    value32 = store_cells-Fits ncolumns 0 w.nrows cell begun hv block.value32;
  }

pub fresh-IsBlock : (ncolumns : ℕ) → IsBlock ncolumns fresh_writer
fresh-IsBlock ncolumns = record {
  room = omega arith;
  bytes8 = λ k. refl;
  clear = λ c r small low high. get_or-replicate 8 (r % 8) false;
  hash32 = λ i. omega arith;
  value32 = λ i. refl;
}

-- After a flush the block is empty.
pub reset-IsBlock :
    (ncolumns : ℕ) (w : SpillWriter)
    → IsBlock ncolumns w
    → IsBlock ncolumns (reset_block ncolumns w)
unfolding reset_block
reset-IsBlock ncolumns w v = record {
  room = omega arith;
  bytes8 =
      λ k. elim (Bool-cases (ltb k (8 * ncolumns))) [ inl e ↦ rw e | inr e ↦ rw e (v.bytes8 k) ];
  clear = λ c r small low high.
      let inside : ltb (c * 8 + r / 8) (8 * ncolumns) ≡ true = ground arith in
      rw inside (get_or-replicate 8 (r % 8) false);
  hash32 = v.hash32;
  value32 = v.value32;
}
