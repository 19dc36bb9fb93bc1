-- ===== src/Spill/Shared/Local.antt =====
-- spill/spill.c: the writer of a participant does what a spill set of its own would do.
use pg_batch.Prelude.{
  ℕ, zero, suc, ◌+◌, ◌≡◌, refl, ap, ◌∙◌, inl, inr, Bool, true, false, List, [], ◌∷◌, Option, none,
  some, get_or, foldl, not, ◌||◌, ltb, leb, ◌==◌, if◌then◌else◌, Bool-cases,
}
use pg_batch.Prelude.Int.{ℤ, pos, negsuc}
use pg_batch.Prelude.Result.{Result, ok, err, ◌>>=◌}
use pg_batch.Postgres.{PgBitutils}
use pg_batch.Bits.{Word, is_zero, bit_and}
use pg_batch.Bits.Ones.{set_bits_decrement}
use pg_batch.Batch.Selection.{Selection, word_at, nwords}
use pg_batch.Kernels.Vector.{Int4Vector}
use pg_batch.Spill.Tape.{LogicalTape}
use pg_batch.Spill.Block.{SpillWriter, update, store_row}
use pg_batch.Spill.Partitions.{
  SpillSet, SpillError, invalid_write, add64, validate_partition, get_writer,
}
use pg_batch.Spill.Partitions.Write.{
  column_cell, dense_cell, first_rows, put_row, add_row, dense_rows, write_dense, write_rows, write,
}
use pg_batch.Spill.Shared.{
  SharedWriter, validate_shared_partition, shared_flush_writer, shared_get_writer, shared_put_row,
  shared_add_row, shared_dense_rows, shared_write_dense, shared_write_rows, shared_write,
}
use pg_batch.Spill.Shared.AsSet.{local, local-flush_writer, local-get_writer}

module _ {File : Type 0} ⦃tape : LogicalTape File⦄ where
  local-put_row :
      (w : SharedWriter File) (q hash : ℕ) (cell : ℕ → ℤ × Bool) (o : Option SpillWriter)
      → local (shared_put_row w q hash cell o) ≡ put_row (local w) q hash cell o
  unfolding shared_put_row put_row
  local-put_row w q hash cell none = refl
  local-put_row w q hash cell (some block) =
      let stored = store_row w.ncolumns hash cell block in
      let counted : SharedWriter File = record w {
        writers = update w.writers q (some stored);
        partition_rows = update w.partition_rows q (add64 (w.partition_rows q) 1);
        stats = record w.stats { rows_written = add64 w.stats.rows_written 1 };
      } in
      by_test (stored.nrows == 64) counted
      ∙ ap (λ s. if stored.nrows == 64 then s else local counted) (local-flush_writer counted q)
      ∙ unfold local in refl
    where
      by_test :
          (b : Bool) (counted : SharedWriter File)
          → local (if b then shared_flush_writer counted q else counted)
            ≡ (if b then local (shared_flush_writer counted q) else local counted)
      by_test true counted = refl
      by_test false counted = refl

  local-add_row :
      (w : SharedWriter File) (q hash : ℕ) (cell : ℕ → ℤ × Bool)
      → local (shared_add_row w q hash cell) ≡ add_row (local w) q hash cell
  unfolding shared_add_row add_row local
  local-add_row w q hash cell = local-put_row w q hash cell (w.writers q)

  local-dense_rows :
      (n row : ℕ) (w : SharedWriter File) (q : ℕ) (hashes : List ℕ) (values : List ℤ) (stride : ℕ)
      (validity : List Word)
      → local (shared_dense_rows n row w q hashes values stride validity)
        ≡ dense_rows n row (local w) q hashes values stride validity
  unfolding shared_dense_rows dense_rows
  local-dense_rows zero row w q hashes values stride validity = refl
  local-dense_rows (suc n) row w q hashes values stride validity =
      local-dense_rows n (row + 1)
        (shared_add_row w q (get_or hashes row 0) (dense_cell values stride validity row)) q hashes
        values stride validity
      ∙ ap (λ s. dense_rows n (row + 1) s q hashes values stride validity)
          (local-add_row w q (get_or hashes row 0) (dense_cell values stride validity row))

  local-foldl :
      (hash : ℕ → ℕ) (cell : ℕ → ℕ → ℤ × Bool) (q : ℕ) (rows : List ℕ) (w : SharedWriter File)
      → local (foldl (λ w row. shared_add_row w q (hash row) (cell row)) w rows)
        ≡ foldl (λ s row. add_row s q (hash row) (cell row)) (local w) rows
  unfolding foldl
  local-foldl hash cell q [] w = refl
  local-foldl hash cell q (row ∷ rows) w =
      local-foldl hash cell q rows (shared_add_row w q (hash row) (cell row))
      ∙ ap (λ s. foldl (λ s row. add_row s q (hash row) (cell row)) s rows)
          (local-add_row w q (hash row) (cell row))

  -- The result of a write, with the writer as a spill set.
  abbrev pub local_result :
      Result SpillError (SharedWriter File) → Result SpillError (SpillSet File)
  local_result (ok w) = ok (local w)
  local_result (err e) = err e

  same_result :
      (b : Bool) (e : SpillError) (w : SharedWriter File) (s : SpillSet File)
      → local w ≡ s
      → local_result (if b then err e else ok w) ≡ (if b then err e else ok s)
  same_result true e w s h = refl
  same_result false e w s h = ap ok h

  local-bind :
      (w : SharedWriter File) (partition : ℤ) (f : ℕ → Result SpillError (SharedWriter File))
      (g : ℕ → Result SpillError (SpillSet File))
      → ((p : ℕ) → local_result (f p) ≡ g p)
      → local_result (validate_shared_partition w partition >>= f)
        ≡ (validate_partition (local w) partition >>= g)
  unfolding local validate_shared_partition validate_partition
  local-bind w (pos p) f g same = elim (Bool-cases (leb w.partitions p)) [
    | inl out ↦ rw out
    | inr within ↦ rw within (same p)
  ]
  local-bind w (negsuc n) f g same = refl

  -- A dense write of a participant ends like the write of a set of its own, with the same error or
  -- with the same rows in its files and its blocks.
  pub local-write_dense :
      (w : SharedWriter File) (partition : ℤ) (nrows : ℕ) (hashes : Option (List ℕ))
      (values : Option (List ℤ)) (stride : ℕ) (validity : Option (List Word))
      → local_result (shared_write_dense w partition nrows hashes values stride validity)
        ≡ write_dense (local w) partition nrows hashes values stride validity
  unfolding local shared_write_dense write_dense
  local-write_dense w partition nrows (some hashes) (some values) stride (some validity) =
      local-bind w partition _ _ (λ p.
        same_result (w.finished || nrows == 0 || ltb 64 nrows || ltb stride nrows) invalid_write
          (shared_dense_rows nrows 0 (shared_get_writer w p) p hashes values stride validity)
          (dense_rows nrows 0 (get_writer (local w) p) p hashes values stride validity)
          (local-dense_rows nrows 0 (shared_get_writer w p) p hashes values stride validity
            ∙ ap (λ s. dense_rows nrows 0 s p hashes values stride validity)
                (local-get_writer w p)))
  local-write_dense w partition nrows none values stride validity =
      local-bind w partition _ _ (λ p. refl)
  local-write_dense w partition nrows (some hashes) none stride validity =
      local-bind w partition _ _ (λ p. refl)
  local-write_dense w partition nrows (some hashes) (some values) stride none =
      local-bind w partition _ _ (λ p. refl)

module _ {File : Type 0} ⦃tape : LogicalTape File⦄ ⦃pg : PgBitutils⦄ where
  local-write_rows :
      (w : SharedWriter File) (p : ℕ) (columns : List Int4Vector) (selection : Selection)
      (hashes : List ℕ)
      → local (shared_write_rows w p columns selection hashes)
        ≡ write_rows (local w) p columns selection hashes
  unfolding shared_write_rows write_rows
  local-write_rows w p columns selection hashes =
      let rows = bit_and (word_at selection 0) (first_rows selection.nrows) in
      by_test (is_zero rows) (set_bits_decrement rows)
    where
      by_test :
          (b : Bool) (rows : List ℕ)
          → local (
              if b
              then w
              else foldl
                  (λ w row. shared_add_row w p (get_or hashes row 0) (column_cell columns row))
                  (shared_get_writer w p)
                  rows)
            ≡ (if b
                then local w
                else foldl
                    (λ s row. add_row s p (get_or hashes row 0) (column_cell columns row))
                    (get_writer (local w) p)
                    rows)
      by_test true rows = refl
      by_test false rows =
          local-foldl (λ row. get_or hashes row 0) (column_cell columns) p rows
            (shared_get_writer w p)
          ∙ ap
              (λ s.
                foldl (λ s row. add_row s p (get_or hashes row 0) (column_cell columns row)) s rows)
              (local-get_writer w p)

  -- A write of the selected rows of a participant's batch ends like the write of a set of its own, with
  -- the same error or with the same rows in its files and its blocks.
  pub local-write :
      (w : SharedWriter File) (partition : ℤ) (columns : Option (List Int4Vector))
      (selection : Option Selection) (hashes : Option (List ℕ))
      → local_result (shared_write w partition columns selection hashes)
        ≡ write (local w) partition columns selection hashes
  unfolding local shared_write write
  local-write w partition (some columns) (some selection) (some hashes) =
      local-bind w partition _ _ (λ p.
        same_result (w.finished || ltb 64 selection.nrows || not (nwords selection == 1))
          invalid_write (shared_write_rows w p columns selection hashes)
          (write_rows (local w) p columns selection hashes)
          (local-write_rows w p columns selection hashes))
  local-write w partition none selection hashes = local-bind w partition _ _ (λ p. refl)
  local-write w partition (some columns) none hashes = local-bind w partition _ _ (λ p. refl)
  local-write w partition (some columns) (some selection) none =
      local-bind w partition _ _ (λ p. refl)
