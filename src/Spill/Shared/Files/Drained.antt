-- ===== src/Spill/Shared/Files/Drained.antt =====
-- spill/spill.c: a reader over all participants gives the rows of the first, then those of the second,
-- and so on, and ends.
use pg_batch.Prelude.{
  ℕ, zero, suc, ◌+◌, ◌-◌, ◌<◌, ◌≡◌, refl, sym, ap, ◌∙◌, List, [], ◌++◌, Option, none, some, arith,
  length, length-append, subst, leb, false,
}
use pg_batch.Prelude.Int.{pos}
use pg_batch.Prelude.Result.{Result, ok, ◌>>=◌}
use pg_batch.Spill.Tape.{LogicalTape}
use pg_batch.Spill.Block.{SpillRow}
use pg_batch.Spill.Partitions.{SpillError, no_stats}
use pg_batch.Spill.Reader.{SpillBlock, rows_of_block}
use pg_batch.Spill.Shared.Files.{
  SharedSpill, SharedReader, shared_partition, shared_reader_open, Next, current_file, open_loop,
  read_file, shared_reader_close_file, shared_reader_open_next, shared_round, next_loop,
  shared_reader_next,
}
use pg_batch.Spill.Shared.Files.Opened.{
  logs_from, IsComplete, Holding, Between, Opening, no_file_left, file_opened, open_loop-Opening,
}
use pg_batch.Spill.Shared.Files.Reading.{Reading, file_ended, block_read, read_file-Reading}

module _ {File : Type 0} where
  abbrev pub shared_prepend :
      SpillBlock
      → Option (List SpillRow × SharedReader File)
      → Option (List SpillRow × SharedReader File)
  shared_prepend b none = none
  shared_prepend b (some (rows, reader)) = some (rows_of_block b ++ rows, reader)

  abbrev pub shared_drain_step :
      (SharedReader File → Result SpillError (Option (List SpillRow × SharedReader File)))
      → Option (Next File)
      → Result SpillError (Option (List SpillRow × SharedReader File))
  shared_drain_step rest none = ok none
  shared_drain_step rest (some (none, reader)) = ok (some ([], reader))
  shared_drain_step rest (some (some b, reader)) = rest reader >>= λ o. ok (shared_prepend b o)

module _ {File : Type 0} ⦃tape : LogicalTape File⦄ where
  -- A client that reads blocks until there are none; `none` where its rounds run out.
  pub shared_drain :
      ℕ
      → SharedSpill File
      → SharedReader File
      → Result SpillError (Option (List SpillRow × SharedReader File))
  shared_drain zero shared reader = ok none
  shared_drain (suc fuel) shared reader =
      shared_reader_next shared reader >>= shared_drain_step (λ r. shared_drain fuel shared r)

module _ {File : Type 0} ⦃tape : LogicalTape File⦄ (shared : SharedSpill File) (p : ℕ)
    (log : ℕ → List SpillRow) (complete : IsComplete shared p log) where
  -- The answer of the reader: the end, when no row is left, or a block of the rows that are left.
  data Answered (result : Result SpillError (Option (Next File))) (rows : List SpillRow)
      : Type 0 where
    at_end :
        (s : SharedReader File) → result ≡ ok (some (none, s)) → rows ≡ [] → Answered result rows
    with_block :
        (b : SpillBlock) (s : SharedReader File) (m : ℕ) (g : File) (rest : List SpillRow)
        → result ≡ ok (some (some b, s))
        → Holding shared p log m s g rest
        → rows ≡ rows_of_block b ++ rest
        → 0 < length (rows_of_block b)
        → Answered result rows

  abbrev Answers : ℕ → SharedReader File → List SpillRow → Type 0
  Answers fuel r rows = Answered (next_loop fuel shared r) rows

  -- The loop after the reads of its first round.
  after_read :
      (fuel m : ℕ) (r s : SharedReader File) (f : File) (rows : List SpillRow)
      → current_file shared r r.file ≡ ok (some f, s)
      → ((q : SharedReader File)
          → Between shared p m q
          → Answers fuel q (logs_from m q.participant log))
      → Reading shared p log complete m s f rows
      → Answers (suc fuel) r rows
  unfolding next_loop shared_round
  after_read fuel m r s f rows opened rest (file_ended q reads between e) =
      rw (opened, reads) (subst (Answers fuel q) (sym e) (rest q between))
  after_read fuel m r s f rows opened rest (block_read b q g left reads holding e some_rows) =
      rw (opened, reads) (with_block b q m g left refl holding e some_rows)

  open_next :
      (m : ℕ) (r : SharedReader File)
      → Between shared p m r
      → current_file shared r r.file ≡ open_loop m shared r
  unfolding current_file shared_reader_open_next shared_reader_close_file
  open_next m r h =
      let remain : shared.participants - r.participant ≡ m = omega (arith, h.others) in
      ap (current_file shared r) h.file
      ∙ ap (λ n. open_loop n shared (record r { file = none })) remain
      ∙ ap (λ o. open_loop m shared (record r { file = o })) (sym h.file)

  after_end :
      (fuel : ℕ) (r s : SharedReader File)
      → current_file shared r r.file ≡ ok (none, s)
      → next_loop (suc fuel) shared r ≡ ok (some (none, s))
  unfolding next_loop shared_round read_file
  after_end fuel r s e = rw e

  next-Between :
      (fuel m : ℕ) (r : SharedReader File)
      → m < fuel
      → Between shared p m r
      → Answers fuel r (logs_from m r.participant log)
  next-Between zero m r enough h = elim enough [ ]
  next-Between (suc fuel) m r enough h =
      by_opening (open_loop-Opening shared p log complete m r h.partition h.others)
        (λ k less q between. next-Between fuel k q (omega (arith, less, enough)) between)
    where
      by_opening :
          Opening shared p log complete m r (logs_from m r.participant log)
          → ((k : ℕ)
              → k < m
              → (q : SharedReader File) → Between shared p k q
              → Answers fuel q (logs_from k q.participant log))
          → Answers (suc fuel) r (logs_from m r.participant log)
      by_opening (no_file_left s runs nil) rest =
          at_end s (after_end fuel r s (open_next m r h ∙ runs)) nil
      by_opening (file_opened f s k runs less holding) rest =
          after_read fuel k r s f (logs_from m r.participant log) (open_next m r h ∙ runs)
            (rest k less)
            (read_file-Reading shared p log complete k s f (logs_from m r.participant log) holding)

  next-Holding :
      (fuel m : ℕ) (r : SharedReader File) (f : File) (rows : List SpillRow)
      → m < fuel
      → Holding shared p log m r f rows
      → Answers (suc fuel) r rows
  unfolding current_file
  next-Holding fuel m r f rows enough h =
      after_read fuel m r r f rows (ap (current_file shared r) h.file)
        (λ q between. next-Between fuel m q enough between)
        (read_file-Reading shared p log complete m r f rows h)

  -- The reader answers in every state that it can be in.
  reader-Holding :
      (m : ℕ) (r : SharedReader File) (f : File) (rows : List SpillRow)
      → Holding shared p log m r f rows
      → Answered (shared_reader_next shared r) rows
  unfolding shared_reader_next
  reader-Holding m r f rows h =
      let remain : shared.participants - r.participant + 2 ≡ suc (m + 1) =
        omega (arith, h.others) in
      subst (λ n. Answers n r rows) (sym remain) (next-Holding (m + 1) m r f rows (omega arith) h)

  reader-Between :
      (m : ℕ) (r : SharedReader File)
      → Between shared p m r
      → Answered (shared_reader_next shared r) (logs_from m r.participant log)
  unfolding shared_reader_next
  reader-Between m r h =
      let remain : shared.participants - r.participant + 2 ≡ m + 2 = omega (arith, h.others) in
      subst (λ n. Answers n r (logs_from m r.participant log)) (sym remain)
        (next-Between (m + 2) m r (omega arith) h)

  abbrev Drains : ℕ → SharedReader File → List SpillRow → Type 0
  Drains fuel r rows = (s : SharedReader File) × (shared_drain fuel shared r ≡ ok (some (rows, s)))

  drain-Answered :
      (fuel : ℕ) (r : SharedReader File) (rows : List SpillRow)
      → length rows < suc fuel
      → ((m : ℕ) (q : SharedReader File) (g : File) (rest : List SpillRow)
          → length rest < fuel
          → Holding shared p log m q g rest
          → Drains fuel q rest)
      → Answered (shared_reader_next shared r) rows
      → Drains (suc fuel) r rows
  unfolding shared_drain
  drain-Answered fuel r rows enough more (at_end s e nil) = (s, rw (e, nil))
  drain-Answered fuel r rows enough more (with_block b s m g rest e holding is some_rows) =
      let (q, drained) =
        more m s g rest
          (omega (
            arith,
            enough,
            some_rows,
            ap (length {A = SpillRow}) is,
            length-append (rows_of_block b) rest,
          ))
          holding in
      (q, rw (e, drained) (ap (λ l. ok (some (l, q))) (sym is)))

  drain-Holding :
      (fuel m : ℕ) (r : SharedReader File) (f : File) (rows : List SpillRow)
      → length rows < fuel
      → Holding shared p log m r f rows
      → Drains fuel r rows
  drain-Holding zero m r f rows enough h = elim enough [ ]
  drain-Holding (suc fuel) m r f rows enough h =
      drain-Answered fuel r rows enough
        (λ k q g rest less holding. drain-Holding fuel k q g rest less holding)
        (reader-Holding m r f rows h)

  -- A reader of a partition whose participants have all ended gives the rows of the first participant,
  -- then those of the next, and ends: no call errs or runs out of rounds. A participant has fewer than
  -- 2^64 rows in the partition and the client has a round for each row and one more.
  pub drain-logs_from :
      (fuel : ℕ)
      → p < shared.partitions
      → length (logs_from shared.participants 0 log) < fuel
      → (reader last : SharedReader File) × (shared_reader_open shared (pos p) ≡ ok reader)
        × (shared_drain fuel shared reader ≡ ok (some (logs_from shared.participants 0 log, last)))
  unfolding shared_reader_open shared_partition
  drain-logs_from zero inside enough = elim enough [ ]
  drain-logs_from (suc fuel) inside enough =
      let reader : SharedReader File = record {
        partition = p;
        participant = 0;
        file = none;
        stats = no_stats;
      } in
      let within : leb shared.partitions p ≡ false = ground (arith, inside) in
      let (last, drained) =
        drain-Answered fuel reader (logs_from shared.participants 0 log) enough
          (λ k q g rest less holding. drain-Holding fuel k q g rest less holding)
          (reader-Between shared.participants reader
            (record { file = refl; partition = refl; others = omega arith })) in
      (reader, last, rw within, drained)
