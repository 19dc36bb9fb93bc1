-- ===== src/Spill/Shared/Files.antt =====
-- spill/spill.c: the object that the participants share, what the end of a writer publishes there, and
-- the reader of a partition over all participants.
pub mod Published
pub mod Progress
pub mod Finished
pub mod Opened
pub mod Reading
pub mod Counts
pub mod Drained
use pg_batch.Prelude.{
  ℕ, zero, suc, ◌+◌, ◌-◌, ◌%◌, ◌^◌, Bool, true, false, not, ◌||◌, List, [], ◌∷◌, Option, none, some,
  length, ltb, leb, ◌==◌, if◌then◌else◌,
}
use pg_batch.Prelude.Int.{ℤ, pos, negsuc}
use pg_batch.Prelude.Result.{Result, ok, err, ◌>>=◌}
use pg_batch.Spill.Tape.{LogicalTape}
use pg_batch.Spill.Block.{update, block_bytes}
use pg_batch.Spill.Partitions.{
  SpillError, partition_out_of_range, already_finished, invalid_block, still_writing, no_file,
  SpillStats, no_stats, add64,
}
use pg_batch.Spill.Reader.{SpillBlock, parse_header, is_valid_header, read_block}
use pg_batch.Spill.Shared.{SharedWriter, shared_flush_writer, shared_free_writer}

-- The arrays `rows`, `stats` and `finished` follow the structure in memory. `files` are the exported
-- files of the file set; the name of a file is made of its participant and its partition.
pub record SharedSpill (File : Type 0) : Type 0 where
  pub participants : ℕ
  pub partitions : ℕ
  pub ncolumns : ℕ
  pub rows : ℕ → ℕ → ℕ
  pub stats : ℕ → SpillStats
  pub finished : ℕ → Bool
  pub files : ℕ → ℕ → Option File

-- `participant` is one more than in the code, where it starts at -1.
pub record SharedReader (File : Type 0) : Type 0 where
  pub partition : ℕ
  pub participant : ℕ
  pub file : Option File
  pub stats : SpillStats

module _ {File : Type 0} ⦃tape : LogicalTape File⦄ where
  -- BufFileExportFileSet and BufFileClose
  pub export_file :
      ℕ → Option File → SharedWriter File × SharedSpill File → SharedWriter File × SharedSpill File
  export_file partition none (w, shared) = (w, shared)
  export_file partition (some file) (w, shared) = (
    record w { files = update w.files partition none },
    record shared {
      files =
          update shared.files w.participant
            (update (shared.files w.participant) partition (some (tape.freeze file)));
    },
  )

  pub shared_finish_partition :
      ℕ → SharedWriter File × SharedSpill File → SharedWriter File × SharedSpill File
  shared_finish_partition partition (w, shared) =
      let freed = shared_free_writer (shared_flush_writer w partition) partition in
      export_file partition (freed.files partition) (freed, shared)

  pub shared_finish_loop :
      ℕ → ℕ → SharedWriter File × SharedSpill File → SharedWriter File × SharedSpill File
  shared_finish_loop zero partition state = state
  shared_finish_loop (suc n) partition state =
      shared_finish_loop n (partition + 1) (shared_finish_partition partition state)

  -- The counts, the statistics and the flag of a participant become visible.
  pub publish : SharedWriter File × SharedSpill File → SharedWriter File × SharedSpill File
  publish (w, shared) = (
    record w { finished = true },
    record shared {
      rows = update shared.rows w.participant w.partition_rows;
      stats = update shared.stats w.participant w.stats;
      finished = update shared.finished w.participant true;
    },
  )

  pub shared_writer_finish :
      SharedWriter File
      → SharedSpill File
      → Result SpillError (SharedWriter File × SharedSpill File)
  shared_writer_finish w shared =
      if w.finished
      then err already_finished
      else ok (publish (shared_finish_loop w.partitions 0 (w, shared)))

module _ {File : Type 0} where
  shared_partition : SharedSpill File → ℤ → Result SpillError ℕ
  shared_partition shared (pos partition) =
      if leb shared.partitions partition then err partition_out_of_range else ok partition
  shared_partition shared (negsuc n) = err partition_out_of_range

  -- for (int participant = 0; participant < shared->participants; participant++)
  pub sum_rows : ℕ → ℕ → ℕ → SharedSpill File → ℕ → ℕ
  sum_rows zero participant partition shared result = result
  sum_rows (suc n) participant partition shared result =
      sum_rows n (participant + 1) partition shared
        (add64 result (shared.rows participant partition))

  pub shared_partition_rows : SharedSpill File → ℤ → Result SpillError ℕ
  unfolding sum_rows
  shared_partition_rows shared partition =
      shared_partition shared partition >>= λ p. ok (sum_rows shared.participants 0 p shared 0)

  pub shared_reader_open : SharedSpill File → ℤ → Result SpillError (SharedReader File)
  shared_reader_open shared partition = shared_partition shared partition >>= λ p.
      ok (record { partition = p; participant = 0; file = none; stats = no_stats })

  pub shared_reader_close_file : SharedReader File → SharedReader File
  shared_reader_close_file reader = record reader { file = none }

  pub shared_reader_rewind : SharedReader File → SharedReader File
  unfolding shared_reader_close_file
  shared_reader_rewind reader = record (shared_reader_close_file reader) { participant = 0 }

-- What a round of the loop of the reader comes to: another round, a block, or the end.
pub data Round (File : Type 0) : Type 0 where
  again : SharedReader File → Round File
  gives : SpillBlock → SharedReader File → Round File
  ends : SharedReader File → Round File

-- The next block, with `none` for false, and the reader after it.
abbrev pub Next : Type 0 → Type 0
Next File = Option SpillBlock × SharedReader File

module _ {File : Type 0} ⦃tape : LogicalTape File⦄ where
  -- BufFileOpenFileSet, which fails if there is no such file.
  pub open_file :
      Option File → SharedReader File → Result SpillError (Option File × SharedReader File)
  open_file none reader = err no_file
  open_file (some file) reader =
      let opened = some (tape.rewind_for_read file) in ok (opened, record reader { file = opened })

  -- The loop, over the participants that are left. The file is `none` where the code returns false.
  pub open_loop :
      ℕ → SharedSpill File → SharedReader File → Result SpillError (Option File × SharedReader File)
  open_loop zero shared reader = ok (none, record reader { participant = reader.participant + 1 })
  open_loop (suc n) shared reader =
      let i = reader.participant in
      let next : SharedReader File = record reader { participant = i + 1 } in
      let rest = open_loop n shared next in
      if shared.rows i reader.partition == 0
      then rest
      else if not (shared.finished i)
      then err still_writing
      else open_file (shared.files i reader.partition) next

  pub shared_reader_open_next :
      SharedSpill File → SharedReader File → Result SpillError (Option File × SharedReader File)
  unfolding open_loop shared_reader_close_file
  shared_reader_open_next shared reader =
      open_loop (shared.participants - reader.participant) shared (shared_reader_close_file reader)

  -- The file that a round reads from: the open one or the next.
  pub current_file :
      SharedSpill File
      → SharedReader File
      → Option File
      → Result SpillError (Option File × SharedReader File)
  current_file shared reader none = shared_reader_open_next shared reader
  current_file shared reader (some file) = ok (some file, reader)

  -- The reader after a block was read from its file.
  pub shared_block_read : ℕ → SharedReader File → SpillBlock × File → SharedReader File
  shared_block_read ncolumns reader (block, file) = record reader {
    file = some file;
    stats = record reader.stats {
      rows_read = add64 reader.stats.rows_read block.nrows;
      blocks_read = add64 reader.stats.blocks_read 1;
      bytes_read = add64 reader.stats.bytes_read (block_bytes ncolumns block.nrows);
    };
  }

  -- The reads of a round. A read of no byte closes the file.
  pub read_file :
      SharedSpill File → Option File × SharedReader File → Result SpillError (Round File)
  read_file shared (none, reader) = ok (ends reader)
  read_file shared (some file, reader) =
      let (bs, after) = tape.read file 8 in
      let header = parse_header bs in
      let block = read_block shared.ncolumns header after in
      if length bs == 0
      then ok (again (shared_reader_close_file reader))
      else if not (length bs == 8) || not (is_valid_header shared.ncolumns header)
      then err invalid_block
      else block >>= λ r. ok (gives r.0 (shared_block_read shared.ncolumns reader r))

  pub shared_round : SharedSpill File → SharedReader File → Result SpillError (Round File)
  unfolding current_file read_file
  shared_round shared reader = current_file shared reader reader.file >>= read_file shared

  abbrev pub next_step :
      (SharedReader File → Result SpillError (Option (Next File)))
      → Round File
      → Result SpillError (Option (Next File))
  next_step rest (again reader) = rest reader
  next_step rest (gives block reader) = ok (some (some block, reader))
  next_step rest (ends reader) = ok (some (none, reader))

  -- The loop on fuel; `none` where the fuel runs out.
  pub next_loop : ℕ → SharedSpill File → SharedReader File → Result SpillError (Option (Next File))
  next_loop zero shared reader = ok none
  next_loop (suc fuel) shared reader =
      shared_round shared reader >>= next_step (λ r. next_loop fuel shared r)

  -- A round that does not end passes a participant, but the first, which may only close a file.
  pub shared_reader_next :
      SharedSpill File → SharedReader File → Result SpillError (Option (Next File))
  unfolding next_loop
  shared_reader_next shared reader =
      next_loop (shared.participants - reader.participant + 2) shared reader
