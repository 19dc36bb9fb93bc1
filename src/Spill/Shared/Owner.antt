-- ===== src/Spill/Shared/Owner.antt =====
-- spill/spill.c: a writer stays the writer of its participant, whatever it writes.
use pg_batch.Prelude.{
  ℕ, zero, suc, ◌+◌, ◌≡◌, refl, ◌∙◌, inl, inr, Bool, true, false, not, ◌||◌, List, [], ◌∷◌, Option,
  none, some, get_or, foldl, ltb, ◌==◌, if◌then◌else◌, Bool-cases,
}
use pg_batch.Prelude.Int.{ℤ}
use pg_batch.Prelude.Result.{Result, ok, err, ◌>>=◌}
use pg_batch.Postgres.{PgBitutils}
use pg_batch.Bits.{Word, is_zero, bit_and}
use pg_batch.Bits.Ones.{set_bits_decrement}
use pg_batch.Batch.Selection.{Selection, word_at, nwords}
use pg_batch.Kernels.Vector.{Int4Vector}
use pg_batch.Spill.Tape.{LogicalTape}
use pg_batch.Spill.Block.{SpillWriter, update, store_row}
use pg_batch.Spill.Partitions.{SpillError, invalid_write, add64}
use pg_batch.Spill.Partitions.Write.{column_cell, dense_cell, first_rows}
use pg_batch.Spill.Shared.{
  SharedWriter, validate_shared_partition, shared_free_block, shared_free_writer,
  shared_find_victim, shared_flush_block, shared_flush_writer, shared_evict_victim,
  shared_start_block, shared_get_writer, shared_put_row, shared_add_row, shared_dense_rows,
  shared_write_dense, shared_write_rows, shared_write,
}

module _ {File : Type 0} ⦃tape : LogicalTape File⦄ where
  -- `b` is a writer of the participant of `a`.
  abbrev SameOwner : SharedWriter File → SharedWriter File → Type 0
  SameOwner a b = b.participant ≡ a.participant

  by_test :
      (b : Bool) (w u v : SharedWriter File)
      → SameOwner w u
      → SameOwner w v
      → SameOwner w (if b then u else v)
  by_test true w u v h k = h
  by_test false w u v h k = k

  flush_block_owner :
      (w : SharedWriter File) (p : ℕ) (o : Option SpillWriter)
      → SameOwner w (shared_flush_block w p o)
  unfolding shared_flush_block
  flush_block_owner w p none = refl
  flush_block_owner w p (some block) = elim (Bool-cases (block.nrows == 0)) [
    | inl z ↦ rw z
    | inr z ↦ rw z
  ]

  free_block_owner :
      (w : SharedWriter File) (p : ℕ) (o : Option SpillWriter)
      → SameOwner w (shared_free_block w p o)
  unfolding shared_free_block
  free_block_owner w p none = refl
  free_block_owner w p (some block) = refl

  flush_owner : (w : SharedWriter File) (p : ℕ) → SameOwner w (shared_flush_writer w p)
  unfolding shared_flush_writer
  flush_owner w p = flush_block_owner w p (w.writers p)

  free_owner : (w : SharedWriter File) (p : ℕ) → SameOwner w (shared_free_writer w p)
  unfolding shared_free_writer
  free_owner w p = free_block_owner w p (w.writers p)

  evict_owner : (w : SharedWriter File) (o : Option ℕ) → SameOwner w (shared_evict_victim w o)
  unfolding shared_evict_victim
  evict_owner w none = refl
  evict_owner w (some v) = free_owner (shared_flush_writer w v) v ∙ flush_owner w v

  start_owner :
      (w : SharedWriter File) (p : ℕ) (o : Option SpillWriter)
      → SameOwner w (shared_start_block w p o)
  unfolding shared_start_block
  start_owner w p (some block) = refl
  start_owner w p none =
      let evicted = shared_evict_victim w (shared_find_victim w.partitions 0 w) in
      by_test (w.active_writers == w.max_writers) w evicted w
        (evict_owner w (shared_find_victim w.partitions 0 w)) refl

  get_owner : (w : SharedWriter File) (p : ℕ) → SameOwner w (shared_get_writer w p)
  unfolding shared_get_writer
  get_owner w p = start_owner w p (w.writers p)

  put_owner :
      (w : SharedWriter File) (p hash : ℕ) (cell : ℕ → ℤ × Bool) (o : Option SpillWriter)
      → SameOwner w (shared_put_row w p hash cell o)
  unfolding shared_put_row
  put_owner w p hash cell none = refl
  put_owner w p hash cell (some block) =
      let stored = store_row w.ncolumns hash cell block in
      let counted : SharedWriter File = record w {
        writers = update w.writers p (some stored);
        partition_rows = update w.partition_rows p (add64 (w.partition_rows p) 1);
        stats = record w.stats { rows_written = add64 w.stats.rows_written 1 };
      } in
      by_test (stored.nrows == 64) w (shared_flush_writer counted p) counted (flush_owner counted p)
        refl

  add_owner :
      (w : SharedWriter File) (p hash : ℕ) (cell : ℕ → ℤ × Bool)
      → SameOwner w (shared_add_row w p hash cell)
  unfolding shared_add_row
  add_owner w p hash cell = put_owner w p hash cell (w.writers p)

  dense_owner :
      (n row : ℕ) (w : SharedWriter File) (p : ℕ) (hashes : List ℕ) (values : List ℤ) (stride : ℕ)
      (validity : List Word)
      → SameOwner w (shared_dense_rows n row w p hashes values stride validity)
  unfolding shared_dense_rows
  dense_owner zero row w p hashes values stride validity = refl
  dense_owner (suc n) row w p hashes values stride validity =
      let hash = get_or hashes row 0 in
      let cell = dense_cell values stride validity row in
      dense_owner n (row + 1) (shared_add_row w p hash cell) p hashes values stride validity
      ∙ add_owner w p hash cell

  fold_owner :
      (hash : ℕ → ℕ) (cell : ℕ → ℕ → ℤ × Bool) (p : ℕ) (rows : List ℕ) (w : SharedWriter File)
      → SameOwner w (foldl (λ w row. shared_add_row w p (hash row) (cell row)) w rows)
  unfolding foldl
  fold_owner hash cell p [] w = refl
  fold_owner hash cell p (row ∷ rows) w =
      fold_owner hash cell p rows (shared_add_row w p (hash row) (cell row))
      ∙ add_owner w p (hash row) (cell row)

  -- The writer that a call returns is one of the same participant.
  abbrev pub KeepsOwner : SharedWriter File → Result SpillError (SharedWriter File) → Type 0
  KeepsOwner w (ok u) = u.participant ≡ w.participant
  KeepsOwner w (err e) = Unit

  guarded :
      (b : Bool) (e : SpillError) (w u : SharedWriter File)
      → SameOwner w u
      → KeepsOwner w (if b then err e else ok u)
  guarded true e w u h = tt
  guarded false e w u h = h

  bound :
      (w : SharedWriter File) (r : Result SpillError ℕ)
      (f : ℕ → Result SpillError (SharedWriter File))
      → ((p : ℕ) → KeepsOwner w (f p))
      → KeepsOwner w (r >>= f)
  bound w (ok p) f h = h p
  bound w (err e) f h = tt

  pub shared_write_dense-KeepsOwner :
      (w : SharedWriter File) (partition : ℤ) (nrows : ℕ) (hashes : List ℕ) (values : List ℤ)
      (stride : ℕ) (validity : List Word)
      → KeepsOwner w
          (shared_write_dense w partition nrows (some hashes) (some values) stride (some validity))
  unfolding shared_write_dense
  shared_write_dense-KeepsOwner w partition nrows hashes values stride validity =
      bound w (validate_shared_partition w partition) _ (λ p.
        guarded (w.finished || nrows == 0 || ltb 64 nrows || ltb stride nrows) invalid_write w
          (shared_dense_rows nrows 0 (shared_get_writer w p) p hashes values stride validity)
          (dense_owner nrows 0 (shared_get_writer w p) p hashes values stride validity
            ∙ get_owner w p))

module _ {File : Type 0} ⦃tape : LogicalTape File⦄ ⦃pg : PgBitutils⦄ where
  rows_owner :
      (w : SharedWriter File) (p : ℕ) (columns : List Int4Vector) (s : Selection) (hashes : List ℕ)
      → (shared_write_rows w p columns s hashes).participant ≡ w.participant
  unfolding shared_write_rows
  rows_owner w p columns s hashes =
      let word = bit_and (word_at s 0) (first_rows s.nrows) in
      by_test (is_zero word) w w
        (foldl (λ w row. shared_add_row w p (get_or hashes row 0) (column_cell columns row))
          (shared_get_writer w p) (set_bits_decrement word))
        refl
        (fold_owner (λ row. get_or hashes row 0) (column_cell columns) p (set_bits_decrement word)
            (shared_get_writer w p)
          ∙ get_owner w p)

  pub shared_write-KeepsOwner :
      (w : SharedWriter File) (partition : ℤ) (columns : List Int4Vector) (s : Selection)
      (hashes : List ℕ)
      → KeepsOwner w (shared_write w partition (some columns) (some s) (some hashes))
  unfolding shared_write
  shared_write-KeepsOwner w partition columns s hashes =
      bound w (validate_shared_partition w partition) _ (λ p.
        guarded (w.finished || ltb 64 s.nrows || not (nwords s == 1)) invalid_write w
          (shared_write_rows w p columns s hashes) (rows_owner w p columns s hashes))
