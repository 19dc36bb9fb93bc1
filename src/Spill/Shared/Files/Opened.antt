-- ===== src/Spill/Shared/Files/Opened.antt =====
-- spill/spill.c: the reader opens the next participant's file, against the rows that are left.
use pg_batch.Prelude.{
  ℕ, zero, suc, ◌+◌, ◌^◌, ◌<◌, ◌≡◌, refl, sym, ap, ◌∙◌, inl, inr, true, false, List, [], ◌++◌, none,
  some, arith, length, subst, ◌==◌, Bool-cases,
}
use pg_batch.Prelude.Result.{ok}
use pg_batch.Spill.Bytes.{All}
use pg_batch.Spill.Tape.{LogicalTape}
use pg_batch.Spill.Block.{SpillWriter, SpillRow, block_rows_of}
use pg_batch.Spill.Block.Data.{block_data}
use pg_batch.Spill.Partitions.Log.{IsFull, flat}
use pg_batch.Spill.Reader.RoundTrip.{no_rows}
use pg_batch.Spill.Shared.Files.{SharedSpill, SharedReader, open_file, open_loop}
use pg_batch.Spill.Shared.Files.Published.{Exported}

-- The rows of `n` participants from the i-th, one participant after the other.
unfoldable pub logs_from : ℕ → ℕ → (ℕ → List SpillRow) → List SpillRow
logs_from zero i log = []
logs_from (suc n) i log = log i ++ logs_from n (i + 1) log

module _ {File : Type 0} ⦃tape : LogicalTape File⦄ where
  -- Every participant has ended, and has exported its log of the partition.
  pub record IsComplete (shared : SharedSpill File) (p : ℕ) (log : ℕ → List SpillRow) : Type 0 where
    pub small : shared.ncolumns < 2 ^ 16
    pub flags : (i : ℕ) → i < shared.participants → shared.finished i ≡ true
    pub exported :
        (i : ℕ)
        → i < shared.participants
        → Exported shared.ncolumns (shared.rows i p) (shared.files i p) (log i)
    pub words64 : (i : ℕ) → i < shared.participants → length (log i) < 2 ^ 64

  -- A reader in a file, with the rows that are left there and at the `m` participants after it.
  pub record Holding (shared : SharedSpill File) (p : ℕ) (log : ℕ → List SpillRow) (m : ℕ)
      (r : SharedReader File) (f : File) (rows : List SpillRow) : Type 0 where
    pub blocks : List SpillWriter
    pub full : All (IsFull shared.ncolumns) blocks
    pub unread : tape.rest f ≡ flat (block_data shared.ncolumns) blocks
    pub file : r.file ≡ some f
    pub partition : r.partition ≡ p
    pub others : r.participant + m ≡ shared.participants
    pub rows_left :
        rows ≡ flat (block_rows_of shared.ncolumns) blocks ++ logs_from m r.participant log

  -- A reader that has to open a file, with `m` participants left.
  pub record Between (shared : SharedSpill File) (p m : ℕ) (r : SharedReader File) : Type 0 where
    pub file : r.file ≡ none
    pub partition : r.partition ≡ p
    pub others : r.participant + m ≡ shared.participants

module _ {File : Type 0} ⦃tape : LogicalTape File⦄ (shared : SharedSpill File) (p : ℕ)
    (log : ℕ → List SpillRow) (complete : IsComplete shared p log) where
  -- What opening the next file comes to.
  pub data Opening (n : ℕ) (r : SharedReader File) (rows : List SpillRow) : Type 0 where
    no_file_left :
        (s : SharedReader File) → open_loop n shared r ≡ ok (none, s) → rows ≡ [] → Opening n r rows
    file_opened :
        (f : File) (s : SharedReader File) (m : ℕ)
        → open_loop n shared r ≡ ok (some f, s)
        → m < n
        → Holding shared p log m s f rows
        → Opening n r rows

  -- A participant without rows is passed over.
  passed :
      (n : ℕ) (r : SharedReader File) (rest rows : List SpillRow)
      → (shared.rows r.participant r.partition == 0) ≡ true
      → rows ≡ rest
      → Opening n (record r { participant = r.participant + 1 }) rest
      → Opening (suc n) r rows
  unfolding open_loop
  passed n r rest rows empty e (no_file_left s runs nil) = no_file_left s (rw empty runs) (e ∙ nil)
  passed n r rest rows empty e (file_opened f s m runs less holding) =
      file_opened f s m (rw empty runs) (omega (arith, less))
        (subst (Holding shared p log m s f) (sym e) holding)

  opens :
      (n : ℕ) (r : SharedReader File) (f : File)
      → (shared.rows r.participant r.partition == 0) ≡ false
      → shared.finished r.participant ≡ true
      → shared.files r.participant r.partition ≡ some f
      → open_loop (suc n) shared r
        ≡ ok (
          some (tape.rewind_for_read f),
          record r { participant = r.participant + 1; file = some (tape.rewind_for_read f) },
        )
  unfolding open_loop open_file
  opens n r f rows flag is = rw (rows, flag, is)

  pub open_loop-Opening :
      (n : ℕ) (r : SharedReader File)
      → r.partition ≡ p
      → r.participant + n ≡ shared.participants
      → Opening n r (logs_from n r.participant log)
  unfolding open_loop logs_from
  open_loop-Opening zero r e left =
      no_file_left (record r { participant = r.participant + 1 }) refl refl
  open_loop-Opening (suc n) r e left =
      let i = r.participant in
      let next : SharedReader File = record r { participant = i + 1 } in
      let here = complete.exported i (omega (arith, left)) in
      let rest = open_loop-Opening n next e (omega (arith, left)) in
      elim (Bool-cases (shared.rows i p == 0)) [
        | inl empty ↦
            let nothing =
              no_rows (log i) (shared.rows i p) here.counted
                (complete.words64 i (omega (arith, left))) empty in
            passed n r (logs_from n (i + 1) log) (log i ++ logs_from n (i + 1) log)
              (ap (λ q. shared.rows i q == 0) e ∙ empty)
              (ap (λ l. l ++ logs_from n (i + 1) log) nothing) rest
        | inr rows ↦
            let (f, is, frozen, bytes) = here.holds rows in
            file_opened (tape.rewind_for_read f)
              (record next { file = some (tape.rewind_for_read f) }) n
              (opens n r f (ap (λ q. shared.rows i q == 0) e ∙ rows)
                (complete.flags i (omega (arith, left))) (ap (shared.files i) e ∙ is))
              (omega arith)
              (record {
                blocks = here.blocks;
                full = here.full;
                unread = tape.rest-rewind f ∙ bytes;
                file = refl;
                partition = e;
                others = omega (arith, left);
                rows_left = ap (λ l. l ++ logs_from n (i + 1) log) here.logged;
              })
      ]
