-- ===== src/Spill/Partitions/Write/Rows.antt =====
-- spill/spill.c: what pg_batch_spill_write and pg_batch_spill_write_dense append to a partition: the
-- selected rows of a batch, and all rows of a dense block.
use pg_batch.Prelude.{
  ℕ, ◌+◌, ◌-◌, ◌/◌, ◌%◌, ◌≤◌, ◌<◌, ◌≡◌, refl, sym, ap, ◌∙◌, inl, inr, true, false, ◌&&◌, List, [],
  ◌∷◌, map, arith, length, get_or, get_or-replicate_lt, set, ltb, ◌==◌, Bool-cases,
}
use mathlib.Core.List.{append-nil}
use pg_batch.Postgres.{PgBitutils, fits_int32}
use pg_batch.Bits.{test_bit, is_zero, bit_and, one_at, ones}
use pg_batch.Bits.Laws.{
  test_bit-and, length-and, length-one_at, test_bit-decrement, length-decrement,
}
use pg_batch.Bits.Ones.{set_bits_decrement-ones, ones-is_zero}
use pg_batch.Batch.Selection.{Selection, contains, word_at}
use pg_batch.Batch.Selection.Rows.{
  contains-test_bit, rows, rows_where, rows_where_append, rows_where_none, rows_where_congr,
}
use pg_batch.Kernels.Mask.{ones-rows_where}
use pg_batch.Kernels.Vector.{Int4Vector, datum, row_is_null, row_value}
use pg_batch.Kernels.Arithmetic.Cells.{cell}
use pg_batch.Spill.Bytes.{IsUint32}
use pg_batch.Spill.Tape.{LogicalTape}
use pg_batch.Spill.Block.{SpillRow, tabulate}
use pg_batch.Spill.Block.Rows.{AreInt32}
use pg_batch.Spill.Block.Store.{stored, tabulate_congr}
use pg_batch.Spill.Partitions.{SpillSet, get_writer}
use pg_batch.Spill.Partitions.Write.{column_cell, first_rows, write_rows}
use pg_batch.Spill.Partitions.Steps.{Frame, Frame-refl}
use pg_batch.Spill.Partitions.Evict.{IsHealthy, get_writer_lem}
use pg_batch.Spill.Partitions.Write.Append.{
  append_to, append_to-nil, rows_for, fold-IsReady, Represents-congr,
}

test_bit-first_rows :
    (nrows i : ℕ) → nrows ≤ 64 → i < 64 → test_bit (first_rows nrows) i ≡ ltb i nrows
unfolding first_rows
test_bit-first_rows nrows i room h = elim (Bool-cases (nrows == 64)) [
  | inl e ↦ rw e (get_or-replicate_lt 64 i true false h ∙ ground arith)
  | inr e ↦ rw e (test_bit-decrement 64 nrows i (ground arith))
]

length-first_rows : (nrows : ℕ) → length (first_rows nrows) ≡ 64
unfolding first_rows
length-first_rows nrows = elim (Bool-cases (nrows == 64)) [
  | inl e ↦ rw e
  | inr e ↦ rw e (length-decrement (one_at 64 nrows) ∙ length-one_at 64 nrows)
]

-- The word that the loop of a write runs over holds the selected rows.
selected_rows :
    (s : Selection)
    → s.nrows ≤ 64
    → length (word_at s 0) ≡ 64
    → ones 0 (bit_and (word_at s 0) (first_rows s.nrows)) ≡ rows s
selected_rows s room width =
    let mask = bit_and (word_at s 0) (first_rows s.nrows) in
    let long : length mask ≡ 64 =
      length-and (word_at s 0) (first_rows s.nrows) (width ∙ sym (length-first_rows s.nrows))
      ∙ width in
    let p = λ (i : ℕ). test_bit (word_at s 0) i && ltb i s.nrows in
    let z : 0 + s.nrows ≡ s.nrows = omega arith in
    let split : 64 ≡ s.nrows + (64 - s.nrows) = omega arith in
    ones-rows_where p mask 0 (λ i h. at_bit i (omega (arith, h, long)))
    ∙ ap (rows_where p 0) (long ∙ split)
    ∙ rows_where_append p s.nrows (64 - s.nrows) 0
    ∙ rw (rows_where_none p (64 - s.nrows) (0 + s.nrows) (λ i a b. beyond i (omega arith))) (
        append-nil (rows_where p 0 s.nrows)
        ∙ rows_where_congr p (contains s) s.nrows 0 (λ i a b. inside i (omega arith)))
  where
    at_bit :
        (i : ℕ)
        → i < 64
        → (test_bit (word_at s 0) (0 + i) && ltb (0 + i) s.nrows)
          ≡ test_bit (bit_and (word_at s 0) (first_rows s.nrows)) i
    at_bit i h =
        let z : 0 + i ≡ i = omega arith in
        rw (
          z,
          test_bit-and (word_at s 0) (first_rows s.nrows) i,
          test_bit-first_rows s.nrows i room h,
        )

    beyond : (i : ℕ) → s.nrows ≤ i → (test_bit (word_at s 0) i && ltb i s.nrows) ≡ false
    beyond i h = ground arith

    inside : (i : ℕ) → i < s.nrows → (test_bit (word_at s 0) i && ltb i s.nrows) ≡ contains s i
    inside i h =
        let word : i / 64 ≡ 0 = omega arith in
        let bit : i % 64 ≡ i = omega arith in rw (contains-test_bit s i, word, bit) (ground arith)

-- The rows of a batch that a write of a selection puts aside.
abbrev pub batch_row : ℕ → List Int4Vector → List ℕ → ℕ → SpillRow
batch_row ncolumns columns hashes i = record {
  hash = get_or hashes i 0;
  cells = tabulate 0 ncolumns (λ c. cell (get_or columns c (datum [] [])) i);
}

-- The types of the arrays that are written.
abbrev pub AreHashes : List ℕ → Type 0
AreHashes hashes = (i : ℕ) → IsUint32 (get_or hashes i 0)

abbrev pub HasInt32Values : List Int4Vector → Type 0
HasInt32Values columns =
    (c i : ℕ) → fits_int32 (row_value (get_or columns c (datum [] [])) i) ≡ true

column_cell-AreInt32 :
    (columns : List Int4Vector) (i : ℕ) → HasInt32Values columns → AreInt32 (column_cell columns i)
unfolding column_cell
column_cell-AreInt32 columns i h c =
    elim (Bool-cases (row_is_null (get_or columns c (datum [] [])) i)) [
      | inl null ↦ rw null
      | inr value ↦ rw value (h c i)
    ]

stored-column_cell :
    (columns : List Int4Vector) (i c : ℕ)
    → stored (column_cell columns i c) ≡ cell (get_or columns c (datum [] [])) i
unfolding column_cell
stored-column_cell columns i c =
    elim (Bool-cases (row_is_null (get_or columns c (datum [] [])) i)) [
      | inl null ↦ rw null
      | inr value ↦ rw value
    ]

rows_for-batch_row :
    (ncolumns : ℕ) (columns : List Int4Vector) (hashes is : List ℕ)
    → rows_for ncolumns (λ i. get_or hashes i 0) (column_cell columns) is
      ≡ map (batch_row ncolumns columns hashes) is
rows_for-batch_row ncolumns columns hashes [] = refl
rows_for-batch_row ncolumns columns hashes (i ∷ is) =
    rw
      (tabulate_congr 0 ncolumns (λ c. stored (column_cell columns i c))
        (λ c. cell (get_or columns c (datum [] [])) i)
        (λ c low high. stored-column_cell columns i c))
      (ap (◌∷◌ (batch_row ncolumns columns hashes i))
        (rows_for-batch_row ncolumns columns hashes is))

module _ {Tape : Type 0} ⦃tape : LogicalTape Tape⦄ ⦃pg : PgBitutils⦄ where
  -- What an accepted write leaves: the rows stand at the end of the partition's log.
  pub record Appended (set written : SpillSet Tape) (log : ℕ → List SpillRow) (p : ℕ)
      (new : List SpillRow) : Type 0 where
    pub healthy : IsHealthy written (append_to log p new)
    pub frame : Frame set written

  pub write_rows-Appended :
      (set : SpillSet Tape) (log : ℕ → List SpillRow) (p : ℕ) (columns : List Int4Vector)
      (s : Selection) (hashes : List ℕ)
      → p < set.npartitions
      → IsHealthy set log
      → s.nrows ≤ 64
      → length (word_at s 0) ≡ 64
      → AreHashes hashes
      → HasInt32Values columns
      → Appended set
          (write_rows set p columns s hashes)
          log
          p
          (map (batch_row set.ncolumns columns hashes) (rows s))
  unfolding write_rows
  write_rows-Appended set log p columns s hashes small h room width hh hv =
      let mask = bit_and (word_at s 0) (first_rows s.nrows) in
      let chosen = selected_rows s room width in
      elim (Bool-cases (is_zero mask)) [
        | inl none_chosen ↦
            let empty = sym chosen ∙ ones-is_zero 0 mask none_chosen in
            rw (none_chosen, empty)
              (record {
                healthy = record {
                  logs =
                      Represents-congr set log (append_to log p [])
                        (λ q. sym (append_to-nil log p q)) h.logs;
                  slots = h.slots;
                };
                frame = Frame-refl set;
              })
        | inr some_chosen ↦
            let ready = get_writer_lem set log p small h in
            let all =
              fold-IsReady p (λ i. get_or hashes i 0) (column_cell columns) hh
                (λ i. column_cell-AreInt32 columns i hv) set.ncolumns (rows s) set
                (get_writer set p) log ready.frame.columns small ready in
            rw
              (
                some_chosen,
                set_bits_decrement-ones mask,
                chosen,
                sym (rows_for-batch_row set.ncolumns columns hashes (rows s)),
              )
              (record { healthy = all.healthy; frame = all.frame })
      ]
