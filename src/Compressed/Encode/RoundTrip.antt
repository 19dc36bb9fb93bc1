-- ===== src/Compressed/Encode/RoundTrip.antt =====
-- examples/compressed_tam/compressed.c: what is read from a compressed column is what was written.
use pg_batch.Prelude.{
  ℕ, zero, suc, ◌+◌, ◌-◌, ◌/◌, ◌%◌, ◌^◌, ◌≤◌, ◌<◌, ◌≡◌, refl, ap, sym, ◌∙◌, inl, inr, Bool, true,
  false, not, ◌&&◌, ◌||◌, List, [], ◌∷◌, Option, none, some, arith, length, get_or, replicate, ltb,
  leb, ◌==◌, ==_iff, if◌then◌else◌, Bool-cases, get_or-take, length-replicate, get_or-replicate,
  get_or-replicate_lt,
}
use pg_batch.Prelude.Int.{ℤ, pos, ◌+ℤ◌, ◌-ℤ◌, int_laws}
use pg_batch.Bits.{Word, test_bit, zeros}
use pg_batch.Batch.Selection.Rows.{rows_where, has-rows_where}
use pg_batch.Bits.Ones.{has}
use pg_batch.Kernels.Vector.{row_is_null, row_value, validity_bit, row_is_null-packed}
use pg_batch.Kernels.Arithmetic.{set_valid}
use pg_batch.Kernels.Arithmetic.Cells.{cell, length-set_valid, validity_bit-set_valid}
use pg_batch.Compressed.{ColumnData}
use pg_batch.Compressed.Encode.{
  CompressedColumn, carried, normalize, fits, deltas_fit, choose_compression, wrap, write_validity,
  write_deltas, write_data, build_column, sum_deltas, decode, column_values, int4_column, first_of,
  rest_of,
}

-- The deltas of this width are stored as they are.
abbrev KeepsWidth : ℕ → Type 0
KeepsWidth half = (z : ℤ) → fits half z ≡ true → wrap half z ≡ z

wrap8 : KeepsWidth 0x80
unfolding wrap
wrap8 z h = ground arith

wrap16 : KeepsWidth 0x8000
unfolding wrap
wrap16 z h = ground arith

add_back : (a b : ℤ) → a +ℤ (b -ℤ a) ≡ b
add_back a b = omega int_laws

-- A view of a stored column whose validity bit and value are known at a row.
view-cell :
    (stored : CompressedColumn) (start row : ℕ) (b : Bool) (v : ℤ)
    → start + row + 1 ≤ 2 ^ 31
    → validity_bit stored.validity (start + row) ≡ b
    → (stored.null_count == 0 ≡ true → b ≡ true)
    → (b ≡ true → get_or (column_values stored) (start + row) (pos 0) ≡ v)
    → cell (int4_column stored start) row ≡ (if b then some v else none)
unfolding int4_column row_value row_is_null
view-cell stored start row b v h bit all value = elim (Bool-cases (stored.null_count == 0)) [
  | inl z ↦ rw (z, all z) (ap some (value (all z)))
  | inr p ↦ rw p (
      rw (row_is_null-packed (column_values stored) stored.validity start row h, bit)
        (elim (Bool-cases b) [ inl on ↦ rw on (ap some (value on)) | inr off ↦ rw off ]))
]

module _ (c : ColumnData) where
  sum_deltas-write_deltas :
      (half : ℕ) (keeps : KeepsWidth half) (last : ℤ) (row n : ℕ)
      → deltas_fit half last (normalize c last row n) ≡ true
      → sum_deltas last (write_deltas half c last row n) ≡ normalize c last row n
  unfolding sum_deltas write_deltas normalize deltas_fit
  sum_deltas-write_deltas half keeps last row zero h = refl
  sum_deltas-write_deltas half keeps last row (suc n) h =
      let value = carried c last row in
      let k : wrap half (value -ℤ last) ≡ value -ℤ last = keeps (value -ℤ last) (ground arith) in
      rw (k, add_back last value)
        (ap (λ l. value ∷ l) (sum_deltas-write_deltas half keeps value (row + 1) n (ground arith)))

  normalize-at :
      (last : ℤ) (row n i k : ℕ)
      → i < n
      → k ≡ row + i
      → test_bit c.nonnull_rows k ≡ true
      → get_or (normalize c last row n) i (pos 0) ≡ get_or c.values k (pos 0)
  unfolding normalize
  normalize-at last row zero i k h e on = absurd (omega arith)
  normalize-at last row (suc n) zero k h e on = let f : row ≡ k = omega arith in rw (f, on)
  normalize-at last row (suc n) (suc i) k h e on =
      normalize-at (carried c last row) (row + 1) n i k (omega arith) (omega arith) on

  first_rest :
      (last : ℤ) (row n : ℕ)
      → 1 ≤ n
      → (first_of (normalize c last row n) ≡ carried c last row)
        × (rest_of (normalize c last row n) ≡ normalize c (carried c last row) (row + 1) (n - 1))
        × (normalize c last row n
            ≡ carried c last row ∷ normalize c (carried c last row) (row + 1) (n - 1))
  unfolding normalize
  first_rest last row zero h = absurd (omega arith)
  first_rest last row (suc n) h = let e : suc n - 1 ≡ n = omega arith in (refl, rw e, rw e)

  -- The first value of a batch.
  abbrev base_of : ℕ → ℤ
  base_of n = first_of (normalize c (pos 0) 0 n)

  deltas_read :
      (half n : ℕ) (keeps : KeepsWidth half)
      → 1 ≤ n
      → deltas_fit half (base_of n) (rest_of (normalize c (pos 0) 0 n)) ≡ true
      → base_of n ∷ sum_deltas (base_of n) (write_deltas half c (base_of n) 1 (n - 1))
        ≡ normalize c (pos 0) 0 n
  deltas_read half n keeps h fit =
      let (f, r, all) = first_rest (pos 0) 0 n h in
      let one : 0 + 1 ≡ 1 = omega arith in
      let fit' : deltas_fit half (carried c (pos 0) 0) (normalize c (carried c (pos 0) 0) 1 (n - 1))
          ≡ true =
        sym (rw (f, r, one)) ∙ fit in
      rw (f, all, one)
        (ap (λ l. carried c (pos 0) 0 ∷ l)
          (sum_deltas-write_deltas half keeps (carried c (pos 0) 0) 1 (n - 1) fit'))

  -- The three encodings: the values of the rows that are not null are read back.
  decode-write_data :
      (n row : ℕ)
      → row < n
      → test_bit c.nonnull_rows row ≡ true
      → get_or
          (decode
            (choose_compression c n).encoding
            (choose_compression c n).base
            (write_data (choose_compression c n).encoding (choose_compression c n).base c n))
          row
          (pos 0)
        ≡ get_or c.values row (pos 0)
  unfolding decode write_data choose_compression
  decode-write_data n row h on =
      let read = normalize-at (pos 0) 0 n row row h (omega arith) on in
      elim (Bool-cases (deltas_fit 0x80 (base_of n) (rest_of (normalize c (pos 0) 0 n)))) [
        | inl e8 ↦
            rw e8
              (ap (λ l. get_or l row (pos 0)) (deltas_read 0x80 n wrap8 (omega arith) e8) ∙ read)
        | inr n8 ↦
            rw n8
              (elim (Bool-cases
                (deltas_fit 0x8000 (base_of n) (rest_of (normalize c (pos 0) 0 n)))) [
                  | inl e16 ↦ rw e16 (
                      ap (λ l. get_or l row (pos 0)) (deltas_read 0x8000 n wrap16 (omega arith) e16)
                      ∙ read)
                  | inr n16 ↦ rw (n16, get_or-take n c.values row (pos 0) h)
                ])
      ]

  -- The validity map and the count of nulls, after `n` rows from `row` on.
  validity-write_validity :
      (n row nulls i : ℕ) (validity : List Word)
      → (row + n + 7) / 8 ≤ length validity
      → validity_bit (write_validity c row n validity nulls).0 i
        ≡ validity_bit validity i || ((leb row i && ltb i (row + n)) && test_bit c.nonnull_rows i)
  unfolding write_validity
  validity-write_validity zero row nulls i validity h = ground arith
  validity-write_validity (suc n) row nulls i validity h =
      elim (Bool-cases (test_bit c.nonnull_rows row)) [
        | inl on ↦ rw on (
            validity-write_validity n (row + 1) nulls i (set_valid validity row) (room row)
            ∙ rw (validity_bit-set_valid validity row i (omega arith))
                (elim (Bool-cases (i == row)) [
                  | inl e ↦ let s : i ≡ row = (==_iff _ _).0 e in rw (s, on) (ground arith)
                  | inr ne ↦ ground arith
                ]))
        | inr off ↦ rw off (
            validity-write_validity n (row + 1) (nulls + 1) i validity (omega arith)
            ∙ elim (Bool-cases (i == row)) [
              | inl e ↦ let s : i ≡ row = (==_iff _ _).0 e in rw (s, off) (ground arith)
              | inr ne ↦ ground arith
            ])
      ]
    where
      room : (r : ℕ) → (row + 1 + n + 7) / 8 ≤ length (set_valid validity r)
      room r = omega (arith, h, length-set_valid validity r)

  nulls-write_validity :
      (n row nulls : ℕ) (validity : List Word)
      → (write_validity c row n validity nulls).1
        ≡ nulls + length (rows_where (λ r. not (test_bit c.nonnull_rows r)) row n)
  unfolding write_validity rows_where
  nulls-write_validity zero row nulls validity = omega arith
  nulls-write_validity (suc n) row nulls validity =
      elim (Bool-cases (test_bit c.nonnull_rows row)) [
        | inl on ↦ rw on (nulls-write_validity n (row + 1) nulls (set_valid validity row))
        | inr off ↦ rw off (nulls-write_validity n (row + 1) (nulls + 1) validity ∙ omega arith)
      ]

  -- A row of the column before it is compressed, as SQL sees it.
  abbrev pub input_cell : ℕ → Option ℤ
  input_cell row = if test_bit c.nonnull_rows row then some (get_or c.values row (pos 0)) else none

  no_nulls :
      (n row : ℕ)
      → row < n
      → length (rows_where (λ r. not (test_bit c.nonnull_rows r)) 0 n) ≡ 0
      → test_bit c.nonnull_rows row ≡ true
  no_nulls n row h e =
      let m = has-rows_where (λ r. not (test_bit c.nonnull_rows r)) n 0 row in
      let none_there : has row (rows_where (λ r. not (test_bit c.nonnull_rows r)) 0 n) ≡ false =
        unfold has in rw (empty_list (rows_where (λ r. not (test_bit c.nonnull_rows r)) 0 n) e) in
      ground (arith, m, none_there)
    where
      empty_list : (rs : List ℕ) → length rs ≡ 0 → rs ≡ []
      empty_list [] h = refl
      empty_list (r ∷ rs) h = absurd (omega arith)

  built_validity :
      (n row : ℕ)
      → row < n
      → n ≤ 64
      → validity_bit (build_column c n).validity row ≡ test_bit c.nonnull_rows row
  unfolding build_column
  built_validity n row h small =
      validity-write_validity n 0 0 row (replicate 8 (zeros 8))
        (rw (length-replicate 8 (zeros 8)) (omega arith))
      ∙ rw (empty_bit row (omega arith)) (ground arith)
    where
      empty_bit : (i : ℕ) → i < 64 → validity_bit (replicate 8 (zeros 8)) i ≡ false
      empty_bit i h =
          ap (λ w. test_bit w (i % 8)) (get_or-replicate_lt 8 (i / 8) (zeros 8) [] (omega arith))
          ∙ get_or-replicate 8 (i % 8) false

  -- For every column and batch of at most 64 rows, whatever encoding is chosen, a view of the
  -- compressed column from any start reads each row of the batch as it was written: its value, or
  -- null.
  pub cell-int4_column :
      (n start row : ℕ)
      → start + row < n
      → n ≤ 64
      → cell (int4_column (build_column c n) start) row ≡ input_cell (start + row)
  cell-int4_column n start row h small =
      view-cell (build_column c n) start row (test_bit c.nonnull_rows (start + row))
        (get_or c.values (start + row) (pos 0)) (omega arith)
        (built_validity n (start + row) h small)
        (λ z. no_nulls n (start + row) h (
          unfold build_column in
          sym (nulls-write_validity n 0 0 (replicate 8 (zeros 8)) ∙ omega arith)
          ∙ (==_iff _ _).0 z))
        (λ on. unfold build_column column_values in decode-write_data n (start + row) h on)
