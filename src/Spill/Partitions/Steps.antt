-- ===== src/Spill/Partitions/Steps.antt =====
-- spill/spill.c: flushing, freeing and evicting blocks keep the logs of all partitions and the
-- bound on the blocks in memory.
use pg_batch.Prelude.{
  ℕ, ◌-◌, ◌<◌, ◌≡◌, refl, sym, ap, ◌∙◌, inl, inr, true, false, List, ◌++◌, Option, none, some,
  arith, subst, ◌==◌, ==_iff, Bool-cases,
}
use pg_batch.Spill.Bytes.{All}
use pg_batch.Spill.Tape.{LogicalTape}
use pg_batch.Spill.Block.{SpillWriter, SpillRow, reset_block, block_rows_of}
use pg_batch.Spill.Block.Data.{block_data, contents-write_block}
use pg_batch.Spill.Partitions.{SpillSet, free_block, flush_block}
use pg_batch.Spill.Partitions.Log.{Logs, IsFull, IsOpen, pending, flat, free_Logs, flush_Logs}
use pg_batch.Spill.Partitions.Slots.{Slots, count-update}

-- What the steps leave as it is.
pub record Frame {Tape : Type 0} (a b : SpillSet Tape) : Type 0 where
  pub columns : b.ncolumns ≡ a.ncolumns
  pub partitions : b.npartitions ≡ a.npartitions
  pub limit : b.max_writers ≡ a.max_writers
  pub finish_flag : b.finished ≡ a.finished

-- What the steps on one partition leave of another.
pub record Untouched {Tape : Type 0} (p : ℕ) (a b : SpillSet Tape) : Type 0 where
  pub columns : b.ncolumns ≡ a.ncolumns
  pub same_tape : b.tapes p ≡ a.tapes p
  pub same_writer : b.writers p ≡ a.writers p
  pub same_rows : b.partition_rows p ≡ a.partition_rows p

module _ {Tape : Type 0} where
  pub Frame-refl : (a : SpillSet Tape) → Frame a a
  Frame-refl a = record { columns = refl; partitions = refl; limit = refl; finish_flag = refl }

  pub Frame-trans : (a b c : SpillSet Tape) → Frame a b → Frame b c → Frame a c
  Frame-trans a b c f g = record {
    columns = g.columns ∙ f.columns;
    partitions = g.partitions ∙ f.partitions;
    limit = g.limit ∙ f.limit;
    finish_flag = g.finish_flag ∙ f.finish_flag;
  }

  -- The block of the partition, if it has one, holds no row.
  abbrev pub IsDrained : SpillSet Tape → ℕ → Type 0
  IsDrained set q = (w : SpillWriter) → set.writers q ≡ some w → w.nrows ≡ 0

module _ {Tape : Type 0} ⦃tape : LogicalTape Tape⦄ where
  abbrev pub LogsAt : SpillSet Tape → ℕ → List SpillRow → Type 0
  LogsAt set p rows =
      Logs set.ncolumns (tape.contents (set.tapes p)) (set.writers p) (set.partition_rows p) rows

  pub Untouched-Logs :
      (p : ℕ) (a b : SpillSet Tape) (rows : List SpillRow)
      → Untouched p a b
      → LogsAt a p rows
      → LogsAt b p rows
  Untouched-Logs p a b rows u h = record {
    blocks = h.blocks;
    full = subst (λ n. All (IsFull n) h.blocks) (sym u.columns) h.full;
    on_tape =
        ap tape.contents u.same_tape
        ∙ h.on_tape
        ∙ ap (λ n. flat (block_data n) h.blocks) (sym u.columns);
    logged =
        h.logged
        ∙ ap (λ n. flat (block_rows_of n) h.blocks ++ pending n (a.writers p)) (sym u.columns)
        ∙ ap (λ o. flat (block_rows_of b.ncolumns) h.blocks ++ pending b.ncolumns o)
            (sym u.same_writer);
    opened =
        subst (λ o. IsOpen b.ncolumns o) (sym u.same_writer)
          (subst (λ n. IsOpen n (a.writers p)) (sym u.columns) h.opened);
    counted = u.same_rows ∙ h.counted;
  }

  -- Every partition of the set holds its log.
  abbrev pub Represents : SpillSet Tape → (ℕ → List SpillRow) → Type 0
  Represents set log = (p : ℕ) → LogsAt set p (log p)

  pub flush-Frame :
      (set : SpillSet Tape) (q : ℕ) (o : Option SpillWriter) → Frame set (flush_block set q o)
  unfolding flush_block
  flush-Frame set q none = Frame-refl set
  flush-Frame set q (some w) = elim (Bool-cases (w.nrows == 0)) [
    | inl e ↦ rw e (Frame-refl set)
    | inr e ↦ rw e (record { columns = refl; partitions = refl; limit = refl; finish_flag = refl })
  ]

  -- A flush of a partition keeps its log.
  pub flush_self :
      (set : SpillSet Tape) (q : ℕ) (rows : List SpillRow) (o : Option SpillWriter)
      → o ≡ set.writers q
      → LogsAt set q rows
      → LogsAt (flush_block set q o) q rows
  unfolding flush_block
  flush_self set q rows none e h = h
  flush_self set q rows (some w) e h = elim (Bool-cases (w.nrows == 0)) [
    | inl z ↦ rw z h
    | inr z ↦
        let self : (q == q) ≡ true = ground arith in
        let old =
          subst (λ o. Logs set.ncolumns (tape.contents (set.tapes q)) o (set.partition_rows q) rows)
            (sym e) h in
        rw (z, self, contents-write_block set.ncolumns w (set.tapes q))
          (flush_Logs set.ncolumns (tape.contents (set.tapes q)) (set.partition_rows q) rows w
            old.blocks (old.opened.0, ground (arith, z)) old.full old.on_tape old.logged
            old.counted)
  ]

  -- It leaves the others as they are.
  pub flush_other :
      (set : SpillSet Tape) (q p : ℕ) (o : Option SpillWriter)
      → (p == q) ≡ false
      → Untouched p set (flush_block set q o)
  unfolding flush_block
  flush_other set q p none e = record {
    columns = refl;
    same_tape = refl;
    same_writer = refl;
    same_rows = refl;
  }
  flush_other set q p (some w) e = elim (Bool-cases (w.nrows == 0)) [
    | inl z ↦
        rw z (record { columns = refl; same_tape = refl; same_writer = refl; same_rows = refl })
    | inr z ↦
        rw z (record { columns = refl; same_tape = rw e; same_writer = rw e; same_rows = refl })
  ]

  pub flush-Represents :
      (set : SpillSet Tape) (q : ℕ) (log : ℕ → List SpillRow) (o : Option SpillWriter)
      → o ≡ set.writers q
      → Represents set log
      → Represents (flush_block set q o) log
  flush-Represents set q log o e h p = elim (Bool-cases (p == q)) [
    | inl same ↦
        let here : p ≡ q = (==_iff p q).0 same in
        subst (λ k. LogsAt (flush_block set q o) k (log k)) (sym here)
          (flush_self set q (log q) o e (h q))
    | inr other ↦
        Untouched-Logs p set (flush_block set q o) (log p) (flush_other set q p o other) (h p)
  ]

  pub flush-IsDrained :
      (set : SpillSet Tape) (q : ℕ) (o : Option SpillWriter)
      → o ≡ set.writers q
      → IsDrained (flush_block set q o) q
  unfolding flush_block reset_block
  flush-IsDrained set q none e w h = ground (arith, e, h)
  flush-IsDrained set q (some v) e w h = elim (Bool-cases (v.nrows == 0)) [
    | inl z ↦ ground (arith, z, e, h)
    | inr z ↦ ground (arith, z, h)
  ]

  pub flush-Slots :
      (set : SpillSet Tape) (q : ℕ) (o : Option SpillWriter)
      → o ≡ set.writers q
      → q < set.npartitions
      → Slots set
      → Slots (flush_block set q o)
  unfolding flush_block
  flush-Slots set q none e small h = h
  flush-Slots set q (some w) e small h = elim (Bool-cases (w.nrows == 0)) [
    | inl z ↦ rw z h
    | inr z ↦
        let count =
          count-update set.npartitions q set.writers (some (reset_block set.ncolumns w)) small in
        let same = rw (← e) at count in
        rw z (record {
          active = omega (arith, h.active, same);
          bounded = h.bounded;
          one_writer = h.one_writer;
          cursor = h.cursor;
        })
  ]

  pub free-Frame :
      (set : SpillSet Tape) (q : ℕ) (o : Option SpillWriter) → Frame set (free_block set q o)
  unfolding free_block
  free-Frame set q none = Frame-refl set
  free-Frame set q (some w) = record {
    columns = refl;
    partitions = refl;
    limit = refl;
    finish_flag = refl;
  }

  pub free-Represents :
      (set : SpillSet Tape) (q : ℕ) (log : ℕ → List SpillRow) (o : Option SpillWriter)
      → o ≡ set.writers q
      → IsDrained set q
      → Represents set log
      → Represents (free_block set q o) log
  unfolding free_block
  free-Represents set q log none e drained h p = h p
  free-Represents set q log (some w) e drained h p = elim (Bool-cases (p == q)) [
    | inr other ↦ rw other (h p)
    | inl same ↦
        let here : p ≡ q = (==_iff p q).0 same in
        rw (same, here)
          (free_Logs set.ncolumns (tape.contents (set.tapes q)) (set.partition_rows q) (log q) w
            (drained w (sym e))
            (subst
              (λ o.
                Logs set.ncolumns (tape.contents (set.tapes q)) o (set.partition_rows q) (log q))
              (sym e) (h q)))
  ]

  pub free-Slots :
      (set : SpillSet Tape) (q : ℕ) (o : Option SpillWriter)
      → o ≡ set.writers q
      → q < set.npartitions
      → Slots set
      → Slots (free_block set q o)
  unfolding free_block
  free-Slots set q none e small h = h
  free-Slots set q (some w) e small h =
      let count = count-update set.npartitions q set.writers none small in
      let freed = rw (← e) at count in
      record {
        active = omega (arith, h.active, freed);
        bounded = omega (arith, h.bounded);
        one_writer = h.one_writer;
        cursor = h.cursor;
      }

  pub free-writers :
      (set : SpillSet Tape) (q : ℕ) (o : Option SpillWriter) (p : ℕ)
      → o ≡ set.writers q
      → ((free_block set q o).writers q ≡ none)
        × (set.writers p ≡ none → (free_block set q o).writers p ≡ none)
  unfolding free_block
  free-writers set q none p e = (sym e, λ h. h)
  free-writers set q (some w) p e =
      let self : (q == q) ≡ true = ground arith in
      (rw self, λ h. elim (Bool-cases (p == q)) [ inl same ↦ rw same | inr other ↦ rw other h ])

  pub free-active :
      (set : SpillSet Tape) (q : ℕ) (w : SpillWriter)
      → (free_block set q (some w)).active_writers ≡ set.active_writers - 1
  unfolding free_block
  free-active set q w = refl

  pub flush-writers :
      (set : SpillSet Tape) (q : ℕ) (o : Option SpillWriter) (p : ℕ)
      → o ≡ set.writers q
      → set.writers p ≡ none
      → (flush_block set q o).writers p ≡ none
  unfolding flush_block
  flush-writers set q none p e h = h
  flush-writers set q (some w) p e h = elim (Bool-cases (w.nrows == 0)) [
    | inl z ↦ rw z h
    | inr z ↦ rw z (elim (Bool-cases (p == q)) [
      | inl same ↦
          let here : p ≡ q = (==_iff p q).0 same in ground (arith, e, h, ap set.writers here)
      | inr other ↦ rw other h
    ])
  ]

  pub flush-stays :
      (set : SpillSet Tape) (q : ℕ) (o : Option SpillWriter) (w : SpillWriter)
      → o ≡ set.writers q
      → o ≡ some w
      → (v : SpillWriter) × ((flush_block set q o).writers q ≡ some v)
  unfolding flush_block
  flush-stays set q none w e h = ground (arith, h)
  flush-stays set q (some v) w e h =
      let self : (q == q) ≡ true = ground arith in
      elim (Bool-cases (v.nrows == 0)) [
        | inl z ↦ rw z (v, sym e)
        | inr z ↦ rw z (reset_block set.ncolumns v, rw self)
      ]

  pub flush-active :
      (set : SpillSet Tape) (q : ℕ) (o : Option SpillWriter)
      → (flush_block set q o).active_writers ≡ set.active_writers
  unfolding flush_block
  flush-active set q none = refl
  flush-active set q (some w) = elim (Bool-cases (w.nrows == 0)) [ inl z ↦ rw z | inr z ↦ rw z ]
