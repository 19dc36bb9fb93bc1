-- ===== src/Spill/Reader/RoundTrip.antt =====
-- spill/spill.c: the whole life of a spill set, from its creation over any writes to a reader.
use pg_batch.Prelude.{
  ℕ, zero, suc, ◌%◌, ◌^◌, ◌≤◌, ◌<◌, ◌≡◌, refl, sym, ap, ◌∙◌, inl, inr, Bool, true, false, ◌&&◌,
  List, [], ◌∷◌, some, arith, length, length-append, subst, leb, ◌==◌, if◌then◌else◌, Bool-cases,
}
use pg_batch.Prelude.Int.{pos}
use pg_batch.Prelude.Result.{Result, ok}
use pg_batch.Spill.Bytes.{All}
use pg_batch.Spill.Tape.{LogicalTape}
use pg_batch.Spill.Block.{SpillWriter, SpillRow, update, row_at, block_rows_of}
use pg_batch.Spill.Partitions.{SpillSet, SpillError, validate_partition}
use pg_batch.Spill.Partitions.Log.{IsFull, flat}
use pg_batch.Spill.Partitions.Write.Finish.{Readable}
use pg_batch.Spill.Partitions.Write.Finished.{IsFinished}
use pg_batch.Spill.Reader.{SpillReader, reader_open, reader_next, drain}
use pg_batch.Spill.Reader.Drain.{drain-blocks}
use pg_batch.Spill.Reader.Blocks.{length-tabulate}

-- Every block has a row, so the blocks are no more than the rows.
length-blocks :
    (ncolumns : ℕ) (blocks : List SpillWriter)
    → All (IsFull ncolumns) blocks
    → length blocks ≤ length (flat (block_rows_of ncolumns) blocks)
unfolding flat
length-blocks ncolumns [] h = omega arith
length-blocks ncolumns (w ∷ blocks) h = omega (
  arith,
  h.0.1,
  length-blocks ncolumns blocks h.1,
  length-append (block_rows_of ncolumns w) (flat (block_rows_of ncolumns) blocks),
  length-tabulate 0 w.nrows (row_at ncolumns w),
)

pub no_rows :
    (log : List SpillRow) (count : ℕ)
    → count ≡ length log % 2 ^ 64
    → length log < 2 ^ 64
    → (count == 0) ≡ true
    → log ≡ []
no_rows [] count c small e = refl
no_rows (r ∷ log) count c small e = absurd (ground arith)

module _ {Tape : Type 0} ⦃tape : LogicalTape Tape⦄ where
  -- A client of the partition reads the rows and then the end.
  abbrev pub Reads : ℕ → SpillSet Tape → SpillReader → List SpillRow → Type 0
  Reads fuel set reader rows =
      (s : SpillSet Tape) × (drain fuel set reader
        ≡ ok (some (rows, s, record reader { eof = true })))

  read_sealed :
      (frozen : Bool) (set : SpillSet Tape) (p : ℕ) (log : List SpillRow) (fuel : ℕ)
      → set.ncolumns < 2 ^ 16
      → Readable frozen set p log
      → length log < 2 ^ 64
      → length log < fuel
      → (set.partition_rows p == 0) ≡ false
      → Reads fuel set (record { partition = p; eof = false }) log
  read_sealed frozen set p log fuel small h words64 enough rows = rw h.logged (
      drain-blocks fuel h.blocks set p small h.full (h.unread rows) (
        omega
          (arith, length-blocks set.ncolumns h.blocks h.full, ap (length {A = SpillRow}) h.logged)))

  read_empty :
      (set : SpillSet Tape) (p : ℕ) (fuel : ℕ)
      → 0 < fuel
      → Reads fuel set (record { partition = p; eof = true }) []
  unfolding drain reader_next
  read_empty set p zero h = elim h [ ]
  read_empty set p (suc fuel) h = (set, refl)

  no_rewind :
      (b : Bool) (set rewound : SpillSet Tape) (p : ℕ)
      → ◌≡◌ {A = Result SpillError (SpillReader × SpillSet Tape)}
          (if b && false
            then ok (record { partition = p; eof = true }, rewound)
            else ok (record { partition = p; eof = true }, set))
          (ok (record { partition = p; eof = true }, set))
  no_rewind true set rewound p = refl
  no_rewind false set rewound p = refl

  opened_frozen :
      (set : SpillSet Tape) (p : ℕ)
      → leb set.npartitions p ≡ false
      → set.finished ≡ true
      → (set.partition_rows p == 0) ≡ false
      → set.frozen ≡ true
      → reader_open set (pos p)
        ≡ ok (
          record { partition = p; eof = false },
          record set { tapes = update set.tapes p (tape.rewind_for_read (set.tapes p)) },
        )
  unfolding reader_open validate_partition
  opened_frozen set p valid finished rows frozen = simp (valid, finished, rows, frozen)

  opened_destructive :
      (set : SpillSet Tape) (p : ℕ)
      → leb set.npartitions p ≡ false
      → set.finished ≡ true
      → (set.partition_rows p == 0) ≡ false
      → set.frozen ≡ false
      → reader_open set (pos p) ≡ ok (record { partition = p; eof = false }, set)
  unfolding reader_open validate_partition
  opened_destructive set p valid finished rows frozen = simp (valid, finished, rows, frozen)

  -- A partition of a finished set is opened, and read to its end.
  pub open-Reads :
      (frozen : Bool) (set : SpillSet Tape) (log : ℕ → List SpillRow) (p fuel : ℕ)
      → IsFinished frozen set log
      → set.ncolumns < 2 ^ 16
      → p < set.npartitions
      → length (log p) < 2 ^ 64
      → length (log p) < fuel
      → (reader : SpillReader) × ((ready : SpillSet Tape) × (reader_open set (pos p)
            ≡ ok (reader, ready))
          × Reads fuel ready reader (log p))
  unfolding reader_open validate_partition
  open-Reads frozen set log p fuel h small inside words64 enough =
      let valid : leb set.npartitions p ≡ false = ground arith in
      let readable = h.sealed p inside in
      let rewound : SpillSet Tape = record set {
        tapes = update set.tapes p (tape.rewind_for_read (set.tapes p));
      } in
      elim (Bool-cases (set.partition_rows p == 0)) [
        | inl empty ↦
            let nothing = no_rows (log p) (set.partition_rows p) readable.counted words64 empty in
            (
              record { partition = p; eof = true },
              (
                set,
                simp (valid, h.flagged, empty) (no_rewind set.frozen set _ p),
                subst (Reads fuel set (record { partition = p; eof = true })) (sym nothing)
                    (read_empty set p fuel (omega arith)),
              ),
            )
        | inr some_rows ↦ elim (Bool-cases set.frozen) [
          | inl kept ↦
              let (is, holds) = readable.kept (sym h.mode ∙ kept) some_rows in
              let self : (p == p) ≡ true = ground arith in
              let again : Readable frozen rewound p (log p) = record {
                blocks = readable.blocks;
                full = readable.full;
                logged = readable.logged;
                unread = λ e. rw self (tape.rest-rewind (set.tapes p) ∙ holds);
                kept = λ f e. rw self (
                  tape.rewind-is_frozen (set.tapes p) is,
                  tape.contents-rewind (set.tapes p) is ∙ holds,
                );
                counted = readable.counted;
              } in
              (
                record { partition = p; eof = false },
                (
                  rewound,
                  opened_frozen set p valid h.flagged some_rows kept,
                  read_sealed frozen rewound p (log p) fuel small again words64 enough some_rows,
                ),
              )
          | inr destructive ↦ (
            record { partition = p; eof = false },
            (
              set,
              opened_destructive set p valid h.flagged some_rows destructive,
              read_sealed frozen set p (log p) fuel small readable words64 enough some_rows,
            ),
          )
        ]
      ]
