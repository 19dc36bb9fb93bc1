-- ===== src/Spill/Shared/Files/Published.antt =====
-- spill/spill.c: pg_batch_shared_spill_writer_finish exports every row of the participant.
use pg_batch.Prelude.{
  ℕ, ◌%◌, ◌^◌, ◌≡◌, refl, sym, ap, ◌∙◌, ◌⊎◌, inl, inr, true, false, List, [], ◌∷◌, Option, none,
  some, arith, length, length-append, subst, ◌==◌, ==_iff, Bool-cases,
}
use mathlib.Core.List.{append-nil}
use pg_batch.Bits.{Word}
use pg_batch.Spill.Bytes.{All}
use pg_batch.Spill.Tape.{LogicalTape}
use pg_batch.Spill.Block.{SpillWriter, SpillRow, header_bytes, update, block_rows_of}
use pg_batch.Spill.Block.Data.{header_of, block_data}
use pg_batch.Spill.Reader.Blocks.{length-header_bytes}
use pg_batch.Spill.Reader.Drain.{body_of}
use pg_batch.Spill.Partitions.Log.{IsFull, Logs, flat}
use pg_batch.Spill.Partitions.Steps.{Untouched}
use pg_batch.Spill.Partitions.Write.Finish.{pending_drained}
use pg_batch.Spill.Shared.{SharedWriter, file_or_new, shared_flush_block, shared_free_block}
use pg_batch.Spill.Shared.AsSet.{local}
use pg_batch.Spill.Shared.Files.{SharedSpill, export_file}

no_blocks :
    (ncolumns : ℕ) (blocks : List SpillWriter)
    → [] ≡ flat (block_data ncolumns) blocks
    → blocks ≡ []
unfolding flat
no_blocks ncolumns [] e = refl
no_blocks ncolumns (w ∷ blocks) e =
    let header = header_bytes (header_of ncolumns w) in
    absurd (
      omega (
        arith,
        ap (length {A = Word}) e,
        length-append (block_data ncolumns w) (flat (block_data ncolumns) blocks),
        length-append header (body_of ncolumns w),
        length-header_bytes (header_of ncolumns w),
      ))

module _ {File : Type 0} ⦃tape : LogicalTape File⦄ where
  -- What stands under the name of a file after the export.
  abbrev pub frozen_file : Option File → Option File → Option File
  frozen_file old none = old
  frozen_file old (some file) = some (tape.freeze file)

  -- A frozen file with the log of a partition; there may be none if there is no row.
  pub record Exported (ncolumns count : ℕ) (file : Option File) (log : List SpillRow) : Type 0 where
    pub blocks : List SpillWriter
    pub full : All (IsFull ncolumns) blocks
    pub logged : log ≡ flat (block_rows_of ncolumns) blocks
    pub holds :
        (count == 0) ≡ false
        → (f : File) × (file ≡ some f)
          × (tape.is_frozen f ≡ true)
          × (tape.contents f ≡ flat (block_data ncolumns) blocks)
    pub counted : count ≡ length log % 2 ^ 64

  pub same-Exported :
      (n m c d : ℕ) (file other : Option File) (log : List SpillRow)
      → m ≡ n
      → d ≡ c
      → other ≡ file
      → Exported n c file log
      → Exported m d other log
  same-Exported n m c d file other log e f g h = record {
    blocks = h.blocks;
    full = subst (λ n. All (IsFull n) h.blocks) (sym e) h.full;
    logged = h.logged ∙ ap (λ n. flat (block_rows_of n) h.blocks) (sym e);
    holds = λ z.
        let (t, is, frozen, bytes) = h.holds (ap (λ n. n == 0) (sym f) ∙ z) in
        (t, g ∙ is, frozen, bytes ∙ ap (λ n. flat (block_data n) h.blocks) (sym e));
    counted = f ∙ h.counted;
  }

  -- A drained partition, whose file is frozen.
  pub frozen-Exported :
      (ncolumns count : ℕ) (file old : Option File) (o : Option SpillWriter) (log : List SpillRow)
      → ((w : SpillWriter) → o ≡ some w → w.nrows ≡ 0)
      → Logs ncolumns (tape.contents (file_or_new file)) o count log
      → Exported ncolumns count (frozen_file old file) log
  frozen-Exported ncolumns count (some f) old o log drained h = record {
    blocks = h.blocks;
    full = h.full;
    logged =
        h.logged
        ∙ rw (pending_drained ncolumns o drained)
            (append-nil (flat (block_rows_of ncolumns) h.blocks));
    holds = λ e. (tape.freeze f, refl, tape.freeze-is_frozen f, tape.contents-freeze f ∙ h.on_tape);
    counted = h.counted;
  }
  frozen-Exported ncolumns count none old o log drained h =
      let nothing = no_blocks ncolumns h.blocks (sym tape.contents-create ∙ h.on_tape) in
      let empty : log ≡ [] =
        h.logged ∙ rw (pending_drained ncolumns o drained, nothing) (unfold flat in refl) in
      record {
        blocks = [];
        full = tt;
        logged = empty ∙ unfold flat in refl;
        holds = λ e. absurd (ground (arith, e, h.counted, ap (length {A = SpillRow}) empty));
        counted = h.counted;
      }

-- What the end of a writer leaves as it is.
pub record Same {File : Type 0} (a b : SharedWriter File) : Type 0 where
  pub participant : b.participant ≡ a.participant
  pub partitions : b.partitions ≡ a.partitions
  pub columns : b.ncolumns ≡ a.ncolumns
  pub counts : b.partition_rows ≡ a.partition_rows

module _ {File : Type 0} where
  pub Same-refl : (a : SharedWriter File) → Same a a
  Same-refl a = record { participant = refl; partitions = refl; columns = refl; counts = refl }

  pub Same-trans : (a b c : SharedWriter File) → Same a b → Same b c → Same a c
  Same-trans a b c f g = record {
    participant = g.participant ∙ f.participant;
    partitions = g.partitions ∙ f.partitions;
    columns = g.columns ∙ f.columns;
    counts = g.counts ∙ f.counts;
  }

module _ {File : Type 0} ⦃tape : LogicalTape File⦄ where
  pub free_step :
      (w : SharedWriter File) (p : ℕ) (o : Option SpillWriter)
      → Same w (shared_free_block w p o) × ((shared_free_block w p o).files ≡ w.files)
  unfolding shared_free_block
  free_step w p none = (Same-refl w, refl)
  free_step w p (some block) =
      (record { participant = refl; partitions = refl; columns = refl; counts = refl }, refl)

  pub flush_step :
      (w : SharedWriter File) (p : ℕ) (o : Option SpillWriter) → Same w (shared_flush_block w p o)
  unfolding shared_flush_block
  flush_step w p none = Same-refl w
  flush_step w p (some block) = elim (Bool-cases (block.nrows == 0)) [
    | inl z ↦ rw z (Same-refl w)
    | inr z ↦ rw z (record { participant = refl; partitions = refl; columns = refl; counts = refl })
  ]

  -- What an export leaves of the writer and of the shared object.
  pub record Export (p : ℕ) (o : Option File) (w : SharedWriter File) (shared : SharedSpill File)
      (state : SharedWriter File × SharedSpill File) : Type 0 where
    pub same : Same w (state.0)
    pub rows : (state.1).rows ≡ shared.rows
    pub flags : (state.1).finished ≡ shared.finished
    pub shape :
        ((state.1).participants ≡ shared.participants)
        × ((state.1).partitions ≡ shared.partitions)
        × ((state.1).ncolumns ≡ shared.ncolumns)
    pub here : (state.1).files w.participant p ≡ frozen_file (shared.files w.participant p) o
    pub there :
        (i q : ℕ)
        → (q == p) ≡ false ⊎ (i == w.participant) ≡ false
        → (state.1).files i q ≡ shared.files i q
    pub other : (q : ℕ) → (q == p) ≡ false → Untouched q (local w) (local (state.0))

  pub export_file-Export :
      (p : ℕ) (o : Option File) (w : SharedWriter File) (shared : SharedSpill File)
      → Export p o w shared (export_file p o (w, shared))
  unfolding export_file local
  export_file-Export p none w shared = record {
    same = Same-refl w;
    rows = refl;
    flags = refl;
    shape = (refl, refl, refl);
    here = refl;
    there = λ i q h. refl;
    other =
        λ q e. record { columns = refl; same_tape = refl; same_writer = refl; same_rows = refl };
  }
  export_file-Export p (some f) w shared =
      let self : (p == p) ≡ true = ground arith in
      let me : (w.participant == w.participant) ≡ true = ground arith in
      record {
        same = record { participant = refl; partitions = refl; columns = refl; counts = refl };
        rows = refl;
        flags = refl;
        shape = (refl, refl, refl);
        here = rw (me, self);
        there = λ i q h. elsewhere i q h;
        other = λ q e. record {
          columns = refl;
          same_tape = rw e;
          same_writer = refl;
          same_rows = refl;
        };
      }
    where
      elsewhere :
          (i q : ℕ)
          → (q == p) ≡ false ⊎ (i == w.participant) ≡ false
          → update shared.files w.participant
              (update (shared.files w.participant) p (some (tape.freeze f)))
              i
              q
            ≡ shared.files i q
      elsewhere i q (inr e) = rw e
      elsewhere i q (inl e) = elim (Bool-cases (i == w.participant)) [
        | inl same ↦
            rw (same, e) (ap (λ j. shared.files j q) (sym ((==_iff i w.participant).0 same)))
        | inr other ↦ rw other
      ]
