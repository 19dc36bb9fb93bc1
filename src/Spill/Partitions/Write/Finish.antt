-- ===== src/Spill/Partitions/Write/Finish.antt =====
-- spill/spill.c: pg_batch_spill_finish puts every row on its tape and frees every block.
use pg_batch.Prelude.{
  ℕ, ◌%◌, ◌^◌, ◌≡◌, refl, sym, ap, ◌∙◌, inl, inr, Bool, true, false, List, [], Option, none, some,
  arith, length, subst, ◌==◌, if◌then◌else◌, Bool-cases,
}
use mathlib.Core.List.{append-nil}
use pg_batch.Spill.Bytes.{All}
use pg_batch.Spill.Tape.{LogicalTape}
use pg_batch.Spill.Block.{SpillWriter, SpillRow, tabulate, row_at, block_rows_of}
use pg_batch.Spill.Block.Data.{block_data}
use pg_batch.Spill.Partitions.{SpillSet, free_block}
use pg_batch.Spill.Partitions.Write.{rewind_partition}
use pg_batch.Spill.Partitions.Log.{IsFull, pending, flat}
use pg_batch.Spill.Partitions.Slots.{Slots}
use pg_batch.Spill.Partitions.Steps.{Frame, Frame-refl, Untouched, IsDrained, LogsAt}

pub pending_drained :
    (ncolumns : ℕ) (o : Option SpillWriter)
    → ((w : SpillWriter) → o ≡ some w → w.nrows ≡ 0)
    → pending ncolumns o ≡ []
unfolding tabulate
pending_drained ncolumns none h = refl
pending_drained ncolumns (some w) h = ap (λ n. tabulate 0 n (row_at ncolumns w)) (h w refl)

module _ {Tape : Type 0} ⦃tape : LogicalTape Tape⦄ where
  -- A partition that is ready for reading: its tape holds its log.
  pub record Readable (frozen : Bool) (set : SpillSet Tape) (p : ℕ) (log : List SpillRow)
      : Type 0 where
    pub blocks : List SpillWriter
    pub full : All (IsFull set.ncolumns) blocks
    pub logged : log ≡ flat (block_rows_of set.ncolumns) blocks
    pub unread :
        (set.partition_rows p == 0) ≡ false
        → tape.rest (set.tapes p) ≡ flat (block_data set.ncolumns) blocks
    pub kept :
        frozen ≡ true
        → (set.partition_rows p == 0) ≡ false
        → (tape.is_frozen (set.tapes p) ≡ true)
          × (tape.contents (set.tapes p) ≡ flat (block_data set.ncolumns) blocks)
    pub counted : set.partition_rows p ≡ length log % 2 ^ 64

  -- Only the tape and the count of the partition matter.
  pub same-Readable :
      (frozen : Bool) (p : ℕ) (a b : SpillSet Tape) (log : List SpillRow)
      → b.ncolumns ≡ a.ncolumns
      → b.tapes p ≡ a.tapes p
      → b.partition_rows p ≡ a.partition_rows p
      → Readable frozen a p log
      → Readable frozen b p log
  same-Readable frozen p a b log columns same_tape same_rows h = record {
    blocks = h.blocks;
    full = subst (λ n. All (IsFull n) h.blocks) (sym columns) h.full;
    logged = h.logged ∙ ap (λ n. flat (block_rows_of n) h.blocks) (sym columns);
    unread = λ e.
        ap tape.rest same_tape
        ∙ h.unread (ap (λ n. n == 0) (sym same_rows) ∙ e)
        ∙ ap (λ n. flat (block_data n) h.blocks) (sym columns);
    kept = λ f e.
        let holds = h.kept f (ap (λ n. n == 0) (sym same_rows) ∙ e) in
        (
          ap tape.is_frozen same_tape ∙ holds.0,
          ap tape.contents same_tape
              ∙ holds.1
              ∙ ap (λ n. flat (block_data n) h.blocks) (sym columns),
        );
    counted = same_rows ∙ h.counted;
  }

  pub free_self :
      (set : SpillSet Tape) (q : ℕ) (o : Option SpillWriter)
      → o ≡ set.writers q
      → ((free_block set q o).writers q ≡ none)
        × ((free_block set q o).tapes ≡ set.tapes)
        × ((free_block set q o).partition_rows ≡ set.partition_rows)
        × ((free_block set q o).ncolumns ≡ set.ncolumns)
  unfolding free_block
  free_self set q none e = (sym e, refl, refl, refl)
  free_self set q (some w) e =
      let self : (q == q) ≡ true = ground arith in (rw self, refl, refl, refl)

  pub free_other :
      (set : SpillSet Tape) (q p : ℕ) (o : Option SpillWriter)
      → (p == q) ≡ false
      → Untouched p set (free_block set q o)
  unfolding free_block
  free_other set q p none e = record {
    columns = refl;
    same_tape = refl;
    same_writer = refl;
    same_rows = refl;
  }
  free_other set q p (some w) e = record {
    columns = refl;
    same_tape = refl;
    same_writer = rw e;
    same_rows = refl;
  }

  pub rewind_other :
      (frozen : Bool) (set : SpillSet Tape) (q p : ℕ)
      → (p == q) ≡ false
      → Untouched p set (rewind_partition frozen set q)
  unfolding rewind_partition
  rewind_other frozen set q p e = elim (Bool-cases (set.partition_rows q == 0)) [
    | inl z ↦
        rw z (record { columns = refl; same_tape = refl; same_writer = refl; same_rows = refl })
    | inr z ↦
        rw z (record { columns = refl; same_tape = rw e; same_writer = refl; same_rows = refl })
  ]

  pub rewind-Slots :
      (frozen : Bool) (set : SpillSet Tape) (q : ℕ)
      → Slots set
      → Slots (rewind_partition frozen set q)
  unfolding rewind_partition
  rewind-Slots frozen set q h = elim (Bool-cases (set.partition_rows q == 0)) [
    | inl z ↦ rw z h
    | inr z ↦ rw z (record {
      active = h.active;
      bounded = h.bounded;
      one_writer = h.one_writer;
      cursor = h.cursor;
    })
  ]

  pub rewind-Frame :
      (frozen : Bool) (set : SpillSet Tape) (q : ℕ) → Frame set (rewind_partition frozen set q)
  unfolding rewind_partition
  rewind-Frame frozen set q = elim (Bool-cases (set.partition_rows q == 0)) [
    | inl z ↦ rw z (Frame-refl set)
    | inr z ↦ rw z (record { columns = refl; partitions = refl; limit = refl; finish_flag = refl })
  ]

  pub rewind-Readable :
      (frozen : Bool) (set : SpillSet Tape) (p : ℕ) (log : List SpillRow)
      → IsDrained set p
      → LogsAt set p log
      → Readable frozen (rewind_partition frozen set p) p log
  unfolding rewind_partition
  rewind-Readable frozen set p log drained h = elim (Bool-cases (set.partition_rows p == 0)) [
    | inl z ↦ rw z (record {
      blocks = h.blocks;
      full = h.full;
      logged = all_written;
      unread = λ e. ground (arith, e, z);
      kept = λ f e. ground (arith, e, z);
      counted = h.counted;
    })
    | inr z ↦
        let self : (p == p) ≡ true = ground arith in
        rw z (record {
          blocks = h.blocks;
          full = h.full;
          logged = all_written;
          unread = λ e. rw self (rewound frozen);
          kept = λ f e.
              rw (self, f)
                (
                  tape.freeze-is_frozen (set.tapes p),
                  tape.contents-freeze (set.tapes p) ∙ h.on_tape,
                );
          counted = h.counted;
        })
  ]
    where
      all_written : log ≡ flat (block_rows_of set.ncolumns) h.blocks
      all_written =
          h.logged
          ∙ rw (pending_drained set.ncolumns (set.writers p) drained)
              (append-nil (flat (block_rows_of set.ncolumns) h.blocks))

      rewound :
          (b : Bool)
          → tape.rest ((if b then tape.freeze else tape.rewind_for_read) (set.tapes p))
            ≡ flat (block_data set.ncolumns) h.blocks
      rewound true = tape.rest-freeze (set.tapes p) ∙ h.on_tape
      rewound false = tape.rest-rewind (set.tapes p) ∙ h.on_tape
