-- ===== src/Tests/Participants.antt =====
-- The theorems on the spill files of a parallel node at participants of three partitions.
use pg_batch.Prelude.{
  ℕ, zero, suc, ◌%◌, ◌^◌, ◌<◌, ◌≡◌, refl, true, false, List, [], ◌∷◌, some, none, arith, length,
}
use pg_batch.Bits.{is_zero, bit_and, one_at}
use pg_batch.Batch.Selection.{contains}
use pg_batch.Batch.Selection.Rows.{rows_where}
use pg_batch.Spill.Block.{tabulate}
use pg_batch.Spill.Partitions.Steps.{Represents}
use pg_batch.Spill.History.{
  SpillWrite, dense, AllAccepted, rows_of_partition, rows_written, new_set-IsHealthy,
}
use pg_batch.Spill.Shared.Files.{
  SharedSpill, SharedReader, shared_writer_finish, shared_partition_rows, shared_reader_open,
}
use pg_batch.Spill.Shared.Files.Finished.{IsPublished, Others, shared_writer_finish-IsPublished}
use pg_batch.Spill.Shared.Files.Opened.{logs_from}
use pg_batch.Spill.Shared.Files.Drained.{shared_drain}
use pg_batch.Spill.Shared.History.{run_participant, rows_of_participant}
use pg_batch.Spill.Shared.Participants.{is_listed, drain-participants}
use pg_batch.Prelude.Int.{pos}
use pg_batch.Prelude.Result.{ok, fold_result}
use pg_batch.Spill.Partitions.{check_columns, no_stats, new_set}
use pg_batch.Spill.Partitions.Write.{write, write_dense}
use pg_batch.Spill.Shared.{
  SharedWriter, shared_writer_create, new_shared_writer, shared_write, shared_write_dense,
}
use pg_batch.Spill.Shared.AsSet.{local}
use pg_batch.Spill.Shared.Local.{local_result, local-write, local-write_dense}
use pg_batch.Tests.{bitutils, five}
use pg_batch.Tests.Spills.{
  ListTape, list_tape, hashes, values, columns, attributes, dense_validity, calls, hashes-AreHashes,
  values-AreInt32s, columns-HasInt32Values,
}

participant : SharedWriter ListTape
participant = new_shared_writer 1 3 2 0

participant_created : shared_writer_create 2 3 2 1 (some attributes) 0 ≡ ok participant
unfolding shared_writer_create participant check_columns
participant_created = refl

local-write_example :
    local_result (shared_write participant (pos 2) (some columns) (some five) (some hashes))
    ≡ write (local participant) (pos 2) (some columns) (some five) (some hashes)
local-write_example = local-write participant (pos 2) (some columns) (some five) (some hashes)

local-write_dense_example :
    local_result
      (shared_write_dense participant (pos 1) 2 (some hashes) (some values) 2 (some dense_validity))
    ≡ write_dense (local participant) (pos 1) 2 (some hashes) (some values) 2 (some dense_validity)
local-write_dense_example =
    local-write_dense participant (pos 1) 2 (some hashes) (some values) 2 (some dense_validity)

-- The object that two participants share.
abbrev node : SharedSpill ListTape
node = record {
  participants = 2;
  partitions = 3;
  ncolumns = 2;
  rows = λ i p. 0;
  stats = λ i. no_stats;
  finished = λ i. false;
  files = λ i p. none;
}

participant-Represents : Represents (local participant) (λ p. [])
unfolding local participant new_shared_writer new_set
participant-Represents =
    (new_set-IsHealthy {Tape = ListTape} ⦃tape = list_tape⦄ 2 3 0 (omega arith)).logs

shared_writer_finish-IsPublished_example :
    (done : SharedWriter ListTape) × (after : SharedSpill ListTape) × (shared_writer_finish
        participant node
      ≡ ok (done, after))
    × IsPublished participant.partitions participant.ncolumns after participant.participant
        (λ p. [])
    × Others participant.participant node after
    × (after.participants ≡ node.participants)
    × (after.partitions ≡ node.partitions)
    × (after.ncolumns ≡ node.ncolumns)
shared_writer_finish-IsPublished_example =
    shared_writer_finish-IsPublished participant node (λ p. [])
      (unfold participant new_shared_writer in refl) participant-Represents

-- The first participant writes what the test of a spill set writes, the second one block.
abbrev calls_of : ℕ → List SpillWrite
calls_of zero = calls
calls_of (suc i) = dense 0 2 hashes values 2 dense_validity ∷ []

calls_of-AllAccepted : (i : ℕ) → AllAccepted 3 (calls_of i)
calls_of-AllAccepted zero = (
  (omega arith, omega arith, refl, refl, hashes-AreHashes, columns-HasInt32Values),
  (
    (omega arith, omega arith, omega arith, omega arith, hashes-AreHashes, values-AreInt32s),
    ((omega arith, omega arith, refl, refl, hashes-AreHashes, columns-HasInt32Values), tt),
  ),
)
calls_of-AllAccepted (suc i) =
    ((omega arith, omega arith, omega arith, omega arith, hashes-AreHashes, values-AreInt32s), tt)

rows_of_node : length (logs_from 2 0 (λ i. rows_of_participant 2 calls_of i 0)) ≡ 10
unfolding logs_from rows_of_partition rows_written rows_where contains tabulate is_zero bit_and
    one_at
rows_of_node = refl

-- The participants end in the other order.
abbrev ends_in : List ℕ
ends_in = 1 ∷ 0 ∷ []

all_listed : (i : ℕ) → i < 2 → is_listed i ends_in ≡ true
all_listed zero h = refl
all_listed (suc zero) h = refl
all_listed (suc (suc i)) h = absurd (omega arith)

words64 : (i : ℕ) → i < 2 → length (rows_of_participant 2 calls_of i 0) < 2 ^ 64
unfolding rows_of_partition rows_written rows_where contains tabulate is_zero bit_and one_at
words64 zero h = omega arith
words64 (suc zero) h = omega arith
words64 (suc (suc i)) h = absurd (omega arith)

drain-participants_example :
    (after : SharedSpill ListTape) × (reader last : SharedReader ListTape) × (fold_result
        (run_participant attributes 0 calls_of)
        ends_in
        node
      ≡ ok after)
    × (shared_partition_rows after (pos 0)
        ≡ ok (length (logs_from 2 0 (λ i. rows_of_participant 2 calls_of i 0)) % 2 ^ 64))
    × (shared_reader_open after (pos 0) ≡ ok reader)
    × (shared_drain 11 after reader
        ≡ ok (some (logs_from 2 0 (λ i. rows_of_participant 2 calls_of i 0), last)))
drain-participants_example =
    drain-participants attributes 0 calls_of ends_in node 0 11 (omega arith, (omega arith, tt))
      all_listed (omega arith) (unfold check_columns in refl) (omega arith)
      (λ i h. calls_of-AllAccepted i) (omega arith) words64 (omega (arith, rows_of_node))
