-- ===== src/Spill/History.antt =====
-- spill/spill.c: a spill set from its creation over any sequence of writes to its readers.
use pg_batch.Prelude.{
  ℕ, ◌^◌, ◌≤◌, ◌<◌, ◌≡◌, refl, sym, ap, ◌∙◌, inl, inr, Bool, false, List, [], ◌∷◌, ◌++◌, map, none,
  some, arith, length, subst, ◌==◌, if◌then◌else◌, Bool-cases,
}
use mathlib.Core.List.{append-nil, append_assoc}
use pg_batch.Prelude.Int.{ℤ, pos}
use pg_batch.Prelude.Result.{Result, ok, fold_result}
use pg_batch.Postgres.{PgBitutils}
use pg_batch.Bits.{Word}
use pg_batch.Batch.Selection.{Selection, word_at, nwords}
use pg_batch.Batch.Selection.Rows.{rows}
use pg_batch.Kernels.Vector.{Int4Vector}
use pg_batch.Spill.Tape.{LogicalTape}
use pg_batch.Spill.Block.{SpillRow, tabulate}
use pg_batch.Spill.Partitions.{SpillSet, SpillError, Attribute, create, new_set}
use pg_batch.Spill.Partitions.Log.{start_Logs}
use pg_batch.Spill.Partitions.Slots.{count_none}
use pg_batch.Spill.Partitions.Steps.{Frame, Frame-refl, Frame-trans}
use pg_batch.Spill.Partitions.Evict.{IsHealthy}
use pg_batch.Spill.Partitions.Write.{write, write_dense, finish}
use pg_batch.Spill.Partitions.Write.Append.{append_to, Represents-congr}
use pg_batch.Spill.Partitions.Write.Rows.{batch_row, AreHashes, HasInt32Values, Appended}
use pg_batch.Spill.Partitions.Write.Accepted.{
  dense_row, AreInt32s, write-Appended, write_dense-Appended,
}
use pg_batch.Spill.Partitions.Write.Finished.{finish-IsFinished}
use pg_batch.Spill.Reader.{SpillReader, reader_open}
use pg_batch.Spill.Reader.RoundTrip.{Reads, open-Reads}

-- A call of one of the two write functions.
pub data SpillWrite : Type 0 where
  selected :
      (partition : ℕ) (columns : List Int4Vector) (selection : Selection) (hashes : List ℕ)
      → SpillWrite
  dense :
      (partition nrows : ℕ) (hashes : List ℕ) (values : List ℤ) (stride : ℕ) (validity : List Word)
      → SpillWrite

-- What the callers guarantee: the guards of the functions, and the types of the arrays.
abbrev pub IsAccepted : ℕ → SpillWrite → Type 0
IsAccepted npartitions (selected p columns s hashes) =
    (p < npartitions)
    × (s.nrows ≤ 64)
    × (nwords s ≡ 1)
    × (length (word_at s 0) ≡ 64)
    × AreHashes hashes
    × HasInt32Values columns
IsAccepted npartitions (dense p nrows hashes values stride validity) =
    (p < npartitions)
    × (0 < nrows)
    × (nrows ≤ 64)
    × (nrows ≤ stride)
    × AreHashes hashes
    × AreInt32s values

abbrev pub AllAccepted : ℕ → List SpillWrite → Type 0
AllAccepted npartitions [] = Unit
AllAccepted npartitions (w ∷ ws) = IsAccepted npartitions w × AllAccepted npartitions ws

-- The rows that a call writes, and its partition.
unfoldable pub rows_written : ℕ → SpillWrite → List SpillRow
rows_written ncolumns (selected p columns s hashes) =
    map (batch_row ncolumns columns hashes) (rows s)
rows_written ncolumns (dense p nrows hashes values stride validity) =
    tabulate 0 nrows (dense_row ncolumns hashes values stride validity)

abbrev pub target : SpillWrite → ℕ
target (selected p columns s hashes) = p
target (dense p nrows hashes values stride validity) = p

-- The rows that the calls write to a partition, in the order of the calls.
unfoldable pub rows_of_partition : ℕ → List SpillWrite → ℕ → List SpillRow
rows_of_partition ncolumns [] p = []
rows_of_partition ncolumns (w ∷ ws) p =
    (if p == target w then rows_written ncolumns w else []) ++ rows_of_partition ncolumns ws p

module _ {Tape : Type 0} ⦃tape : LogicalTape Tape⦄ ⦃pg : PgBitutils⦄ where
  unfoldable pub apply_write : SpillWrite → SpillSet Tape → Result SpillError (SpillSet Tape)
  apply_write (selected p columns s hashes) set =
      write set (pos p) (some columns) (some s) (some hashes)
  apply_write (dense p nrows hashes values stride validity) set =
      write_dense set (pos p) nrows (some hashes) (some values) stride (some validity)

  apply-Appended :
      (w : SpillWrite) (set : SpillSet Tape) (log : ℕ → List SpillRow)
      → IsAccepted set.npartitions w
      → set.finished ≡ false
      → IsHealthy set log
      → (written : SpillSet Tape) × (apply_write w set ≡ ok written)
        × Appended set written log (target w) (rows_written set.ncolumns w)
  unfolding apply_write rows_written
  apply-Appended (selected p columns s hashes) set log a writing h =
      let (inside, room, one, width, hh, hv) = a in
      write-Appended set log p columns s hashes inside writing h room one width hh hv
  apply-Appended (dense p nrows hashes values stride validity) set log a writing h =
      let (inside, some_rows, room, wide, hh, hv) = a in
      write_dense-Appended set log p nrows hashes values stride validity inside writing h some_rows
        room wide hh hv

  -- The set after the calls.
  pub record Run (set last : SpillSet Tape) (log : ℕ → List SpillRow) : Type 0 where
    pub healthy : IsHealthy last log
    pub frame : Frame set last

  pub fold-apply_write :
      (ws : List SpillWrite) (n np : ℕ) (set : SpillSet Tape) (log : ℕ → List SpillRow)
      → set.ncolumns ≡ n
      → set.npartitions ≡ np
      → AllAccepted np ws
      → set.finished ≡ false
      → IsHealthy set log
      → (last : SpillSet Tape) × (fold_result apply_write ws set ≡ ok last)
        × Run set last (λ p. log p ++ rows_of_partition n ws p)
  unfolding fold_result rows_of_partition
  fold-apply_write [] n np set log e f all writing h = (
    set,
    refl,
    record {
      healthy = record {
        logs = Represents-congr set log (λ p. log p ++ []) (λ p. sym (append-nil (log p))) h.logs;
        slots = h.slots;
      };
      frame = Frame-refl set;
    },
  )
  fold-apply_write (w ∷ ws) n np set log e f all writing h =
      let accepted = subst (λ m. IsAccepted m w) (sym f) (all.0) in
      let (next, runs, first) = apply-Appended w set log accepted writing h in
      let (last, rest, run) =
        fold-apply_write ws n np next (append_to log (target w) (rows_written set.ncolumns w))
          (first.frame.columns ∙ e) (first.frame.partitions ∙ f) (all.1)
          (first.frame.finish_flag ∙ writing) first.healthy in
      (
        last,
        rw (runs, rest),
        record {
          healthy = record {
            logs =
                Represents-congr last
                  (λ p.
                    append_to log (target w) (rows_written set.ncolumns w) p
                    ++ rows_of_partition n ws p)
                  (λ p.
                    log p
                    ++ ((if p == target w then rows_written n w else [])
                        ++ rows_of_partition n ws p))
                  (λ p. regroup p) run.healthy.logs;
            slots = run.healthy.slots;
          };
          frame = Frame-trans set next last first.frame run.frame;
        },
      )
    where
      regroup :
          (p : ℕ)
          → append_to log (target w) (rows_written set.ncolumns w) p ++ rows_of_partition n ws p
            ≡ log p
              ++ ((if p == target w then rows_written n w else []) ++ rows_of_partition n ws p)
      regroup p = elim (Bool-cases (p == target w)) [
        | inl same ↦ rw same (
            ap (λ m. (log p ++ rows_written m w) ++ rows_of_partition n ws p) e
            ∙ append_assoc (log p) (rows_written n w) (rows_of_partition n ws p))
        | inr other ↦ rw other
      ]

  created :
      (attributes : List Attribute) (ncolumns npartitions limit : ℕ) (set : SpillSet Tape)
      → create (some attributes) ncolumns npartitions limit ≡ ok set
      → (set ≡ new_set ncolumns npartitions limit) × (0 < npartitions)
  unfolding create
  created attributes ncolumns npartitions limit set e = (ground (arith, e), ground (arith, e))

  pub new_set-IsHealthy :
      (ncolumns npartitions limit : ℕ)
      → 0 < npartitions
      → IsHealthy {Tape = Tape} (new_set ncolumns npartitions limit) (λ p. [])
  unfolding new_set
  new_set-IsHealthy ncolumns npartitions limit some_partition = record {
    logs = λ p. rw tape.contents-create (start_Logs ncolumns);
    slots = record {
      active = sym (count_none npartitions (λ p. none) (λ p h. refl));
      bounded = omega arith;
      one_writer = ground arith;
      cursor = some_partition;
    };
  }

  -- What creation gives.
  record Created (ncolumns npartitions : ℕ) (set : SpillSet Tape) : Type 0 where
    healthy : IsHealthy set (λ p. [])
    columns : set.ncolumns ≡ ncolumns
    partitions : set.npartitions ≡ npartitions
    writing : set.finished ≡ false

  create-Created :
      (attributes : List Attribute) (ncolumns npartitions limit : ℕ) (set : SpillSet Tape)
      → create (some attributes) ncolumns npartitions limit ≡ ok set
      → Created ncolumns npartitions set
  create-Created attributes ncolumns npartitions limit set e =
      let (same, some_partition) = created attributes ncolumns npartitions limit set e in
      subst (Created ncolumns npartitions) (sym same) (fresh some_partition)
    where
      fresh : 0 < npartitions → Created ncolumns npartitions (new_set ncolumns npartitions limit)
      fresh h = record {
        healthy = new_set-IsHealthy ncolumns npartitions limit h;
        columns = unfold new_set in refl;
        partitions = unfold new_set in refl;
        writing = unfold new_set in refl;
      }

  -- Whatever was written to a partition by accepted calls, in whatever order the partitions took
  -- turns and whatever blocks were evicted between, a reader of the finished set gives those rows in
  -- order, and then ends. A partition holds fewer than 2^64 rows and the client has a round for each.
  pub drain-spilled :
      (attributes : List Attribute) (ncolumns npartitions limit : ℕ) (set : SpillSet Tape)
      (ws : List SpillWrite) (frozen : Bool) (p fuel : ℕ)
      → create (some attributes) ncolumns npartitions limit ≡ ok set
      → ncolumns < 2 ^ 16
      → AllAccepted npartitions ws
      → p < npartitions
      → length (rows_of_partition ncolumns ws p) < 2 ^ 64
      → length (rows_of_partition ncolumns ws p) < fuel
      → (last done ready : SpillSet Tape) × (reader : SpillReader) × (fold_result apply_write ws set
          ≡ ok last)
        × (finish last frozen ≡ ok done)
        × (reader_open done (pos p) ≡ ok (reader, ready))
        × Reads fuel ready reader (rows_of_partition ncolumns ws p)
  drain-spilled attributes ncolumns npartitions limit set ws frozen p fuel e small all inside
        words64 enough =
      let c = create-Created attributes ncolumns npartitions limit set e in
      let (last, runs, run) =
        fold-apply_write ws ncolumns npartitions set (λ q. []) c.columns c.partitions all c.writing
          c.healthy in
      let (done, finishes, finished, partitions, columns) =
        finish-IsFinished last (λ q. rows_of_partition ncolumns ws q) frozen
          (run.frame.finish_flag ∙ c.writing) run.healthy in
      let wide : done.ncolumns < 2 ^ 16 = omega (arith, columns, run.frame.columns, c.columns) in
      let there : p < done.npartitions =
        omega (arith, partitions, run.frame.partitions, c.partitions) in
      let (reader, (ready, opens, reads)) =
        open-Reads frozen done (λ q. rows_of_partition ncolumns ws q) p fuel finished wide there
          words64 enough in
      (last, done, ready, reader, runs, finishes, opens, reads)
