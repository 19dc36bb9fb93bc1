-- ===== src/Spill/Partitions/Write/Accepted.antt =====
-- spill/spill.c: the two write functions on arguments that their guards accept.
use pg_batch.Prelude.{
  ℕ, zero, suc, ◌+◌, ◌*◌, ◌≤◌, ◌<◌, ◌≡◌, refl, sym, ap, true, false, List, [], ◌∷◌, map, none, some,
  arith, length, get_or, foldl, ltb, leb, ◌==◌, if◌then◌else◌,
}
use pg_batch.Prelude.Int.{ℤ, pos}
use pg_batch.Prelude.Result.{ok}
use pg_batch.Postgres.{PgBitutils, fits_int32}
use pg_batch.Bits.{Word, test_bit}
use pg_batch.Batch.Selection.{Selection, word_at, nwords}
use pg_batch.Batch.Selection.Rows.{rows}
use pg_batch.Kernels.Vector.{Int4Vector}
use pg_batch.Spill.Tape.{LogicalTape}
use pg_batch.Spill.Block.{SpillRow, tabulate}
use pg_batch.Spill.Partitions.{SpillSet, validate_partition, get_writer}
use pg_batch.Spill.Partitions.Write.{
  dense_cell, add_row, dense_rows, write_dense, write_rows, write,
}
use pg_batch.Spill.Partitions.Evict.{IsHealthy, get_writer_lem}
use pg_batch.Spill.Partitions.Write.Append.{fold-IsReady}
use pg_batch.Spill.Partitions.Write.Rows.{
  batch_row, AreHashes, HasInt32Values, Appended, write_rows-Appended,
}

-- The rows of a dense block.
abbrev pub dense_row : ℕ → List ℕ → List ℤ → ℕ → List Word → ℕ → SpillRow
dense_row ncolumns hashes values value_stride validity i = record {
  hash = get_or hashes i 0;
  cells = tabulate 0 ncolumns (λ c.
      if test_bit (get_or validity c []) i
      then some (get_or values (c * value_stride + i) (pos 0))
      else none);
}

abbrev pub AreInt32s : List ℤ → Type 0
AreInt32s values = (i : ℕ) → fits_int32 (get_or values i (pos 0)) ≡ true

map-tabulate {ℓ} :
    {A : Type ℓ} (f : ℕ → A) (start n : ℕ) → map f (tabulate start n (λ i. i)) ≡ tabulate start n f
unfolding tabulate
map-tabulate f start zero = refl
map-tabulate f start (suc n) = ap (◌∷◌ (f start)) (map-tabulate f (start + 1) n)

module _ {Tape : Type 0} where
  valid_partition :
      (set : SpillSet Tape) (p : ℕ) → p < set.npartitions → validate_partition set (pos p) ≡ ok p
  unfolding validate_partition
  valid_partition set p small =
      let inside : leb set.npartitions p ≡ false = ground arith in rw inside

module _ {Tape : Type 0} ⦃tape : LogicalTape Tape⦄ where
  dense_rows-foldl :
      (n row : ℕ) (set : SpillSet Tape) (p : ℕ) (hashes : List ℕ) (values : List ℤ) (stride : ℕ)
      (validity : List Word)
      → dense_rows n row set p hashes values stride validity
        ≡ foldl
            (λ set i. add_row set p (get_or hashes i 0) (dense_cell values stride validity i))
            set
            (tabulate row n (λ i. i))
  unfolding dense_rows foldl tabulate
  dense_rows-foldl zero row set p hashes values stride validity = refl
  dense_rows-foldl (suc n) row set p hashes values stride validity =
      dense_rows-foldl n (row + 1)
        (add_row set p (get_or hashes row 0) (dense_cell values stride validity row)) p hashes
        values stride validity

module _ {Tape : Type 0} ⦃tape : LogicalTape Tape⦄ ⦃pg : PgBitutils⦄ where
  -- A write of a selection of one word over at most 64 rows, to a partition in range of a set that is
  -- not finished, succeeds and appends exactly the selected rows, in order, to the partition's log:
  -- each with its hash and, for every column, its value or null. The other logs stay as they are.
  pub write-Appended :
      (set : SpillSet Tape) (log : ℕ → List SpillRow) (p : ℕ) (columns : List Int4Vector)
      (s : Selection) (hashes : List ℕ)
      → p < set.npartitions
      → set.finished ≡ false
      → IsHealthy set log
      → s.nrows ≤ 64
      → nwords s ≡ 1
      → length (word_at s 0) ≡ 64
      → AreHashes hashes
      → HasInt32Values columns
      → (written : SpillSet Tape) × (write set (pos p) (some columns) (some s) (some hashes)
          ≡ ok written)
        × Appended set written log p (map (batch_row set.ncolumns columns hashes) (rows s))
  unfolding write
  write-Appended set log p columns s hashes small writing h room one width hh hv =
      let fits : ltb 64 s.nrows ≡ false = ground arith in
      (
        write_rows set p columns s hashes,
        rw (valid_partition set p small, writing, fits, one),
        write_rows-Appended set log p columns s hashes small h room width hh hv,
      )

  -- A dense write of 1 to 64 rows, whose columns are at least as far apart, to a partition in range of
  -- a set that is not finished, succeeds and appends all the rows to the partition's log, a value
  -- under a clear validity bit being null. The other logs stay as they are.
  pub write_dense-Appended :
      (set : SpillSet Tape) (log : ℕ → List SpillRow) (p nrows : ℕ) (hashes : List ℕ)
      (values : List ℤ) (stride : ℕ) (validity : List Word)
      → p < set.npartitions
      → set.finished ≡ false
      → IsHealthy set log
      → 0 < nrows
      → nrows ≤ 64
      → nrows ≤ stride
      → AreHashes hashes
      → AreInt32s values
      → (written : SpillSet Tape) × (write_dense set
            (pos p)
            nrows
            (some hashes)
            (some values)
            stride
            (some validity)
          ≡ ok written)
        × Appended set written log p
            (tabulate 0 nrows (dense_row set.ncolumns hashes values stride validity))
  unfolding write_dense dense_cell
  write_dense-Appended set log p nrows hashes values stride validity small writing h some_rows room
        wide hh hv =
      let none_missing : (nrows == 0) ≡ false = ground arith in
      let fits : ltb 64 nrows ≡ false = ground arith in
      let apart : ltb stride nrows ≡ false = ground arith in
      let ready = get_writer_lem set log p small h in
      let all =
        fold-IsReady p (λ i. get_or hashes i 0) (dense_cell values stride validity) hh
          (λ i c. hv (c * stride + i)) set.ncolumns (tabulate 0 nrows (λ i. i)) set
          (get_writer set p) log ready.frame.columns small ready in
      (
        dense_rows nrows 0 (get_writer set p) p hashes values stride validity,
        rw (valid_partition set p small, writing, none_missing, fits, apart),
        rw
            (
              dense_rows-foldl nrows 0 (get_writer set p) p hashes values stride validity,
              sym (map-tabulate (dense_row set.ncolumns hashes values stride validity) 0 nrows),
            )
            (record { healthy = all.healthy; frame = all.frame }),
      )
