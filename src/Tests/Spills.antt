-- ===== src/Tests/Spills.antt =====
-- The theorems on spill files at a set of three partitions that has room for one block in memory.
use pg_batch.Prelude.{
  ℕ, zero, suc, ◌<◌, ◌≡◌, refl, Bool, true, false, List, [], ◌∷◌, ◌++◌, some, map, arith, length,
  take, drop,
}
use pg_batch.Prelude.Int.{ℤ, pos, negsuc}
use pg_batch.Prelude.Result.{ok, fold_result}
use pg_batch.Postgres.{fits_int32}
use pg_batch.Bits.{Word, is_zero, bit_and, one_at}
use pg_batch.Batch.Selection.{contains}
use pg_batch.Batch.Selection.Rows.{rows, rows_where}
use pg_batch.Kernels.Vector.{Int4Vector, datum, row_value}
use pg_batch.Spill.Bytes.{IsUint32, All}
use pg_batch.Spill.Tape.{LogicalTape}
use pg_batch.Spill.Block.{tabulate}
use pg_batch.Spill.Partitions.{SpillSet, Attribute, create, new_set, find_victim, get_writer}
use pg_batch.Spill.Partitions.Slots.{FirstBlock, victim_found}
use pg_batch.Spill.Partitions.Evict.{IsHealthy, IsReady, get_writer_lem}
use pg_batch.Spill.Partitions.Write.{write, write_dense, finish}
use pg_batch.Spill.Partitions.Write.Rows.{batch_row, AreHashes, HasInt32Values, Appended}
use pg_batch.Spill.Partitions.Write.Accepted.{
  dense_row, AreInt32s, write-Appended, write_dense-Appended,
}
use pg_batch.Spill.Partitions.Write.Finished.{IsFinished, finish-IsFinished}
use pg_batch.Spill.Reader.{SpillReader, reader_open}
use pg_batch.Spill.Reader.RoundTrip.{Reads}
use pg_batch.Spill.Reader.Answers.{Answer, reader_next-Answer}
use pg_batch.Spill.History.{
  SpillWrite, selected, dense, apply_write, rows_of_partition, rows_written, new_set-IsHealthy,
  drain-spilled,
}
use pg_batch.Tests.{bitutils, five}

-- A tape as the bytes that were written and those that are left.
pub record ListTape : Type 0 where
  written : List Word
  unread : List Word
  keeps : Bool

rewind : ListTape → Bool → ListTape
rewind t keeps = record t { unread = t.written; keeps = keeps }

instance abbrev pub list_tape : LogicalTape ListTape
unfolding rewind
list_tape = record {
  create = record { written = []; unread = []; keeps = false };
  write = λ t bs. record t { written = t.written ++ bs };
  rewind_for_read = λ t. rewind t t.keeps;
  freeze = λ t. rewind t true;
  read = λ t n. (take n t.unread, record t { unread = drop n t.unread });
  contents = λ t. t.written;
  rest = λ t. t.unread;
  is_frozen = λ t. t.keeps;
  contents-create = refl;
  contents-write = λ t bs. refl;
  rest-rewind = λ t. refl;
  rest-freeze = λ t. refl;
  freeze-is_frozen = λ t. refl;
  contents-freeze = λ t. refl;
  contents-rewind = λ t h. refl;
  rewind-is_frozen = λ t h. h;
  contents-read = λ t n h. refl;
  read-is_frozen = λ t n h. h;
  read-take = λ t n. refl;
  read-drop = λ t n. refl;
}

-- Arrays of numbers in range.
in_range_hashes : (hashes : List ℕ) → All IsUint32 hashes → AreHashes hashes
in_range_hashes [] h i = omega arith
in_range_hashes (x ∷ hashes) h zero = h.0
in_range_hashes (x ∷ hashes) h (suc i) = in_range_hashes hashes (h.1) i

in_range_values : (values : List ℤ) → All (λ v. fits_int32 v ≡ true) values → AreInt32s values
in_range_values [] h i = refl
in_range_values (x ∷ values) h zero = h.0
in_range_values (x ∷ values) h (suc i) = in_range_values values (h.1) i

abbrev pub hashes : List ℕ
hashes = 7 ∷ 8 ∷ 0xffff_ffff ∷ 10 ∷ 11 ∷ []

abbrev pub values : List ℤ
values = pos 5 ∷ negsuc 2 ∷ pos 0 ∷ pos 2147483647 ∷ pos 9 ∷ []

-- Two columns; the second row of the first and the fourth of the second are null.
abbrev pub columns : List Int4Vector
columns =
    datum values (false ∷ true ∷ false ∷ false ∷ false ∷ [])
    ∷ datum values (false ∷ false ∷ false ∷ true ∷ false ∷ [])
    ∷ []

pub hashes-AreHashes : AreHashes hashes
hashes-AreHashes = in_range_hashes hashes (omega arith)

pub values-AreInt32s : AreInt32s values
values-AreInt32s = in_range_values values (refl, (refl, (refl, (refl, (refl, tt)))))

pub columns-HasInt32Values : HasInt32Values columns
unfolding row_value
columns-HasInt32Values zero i = values-AreInt32s i
columns-HasInt32Values (suc zero) i = values-AreInt32s i
columns-HasInt32Values (suc (suc c)) i = refl

abbrev pub attributes : List Attribute
attributes =
    record { attisdropped = false; atttypid = 23 }
    ∷ record { attisdropped = false; atttypid = 23 }
    ∷ []

abbrev pub dense_validity : List Word
dense_validity = (true ∷ false ∷ []) ∷ (true ∷ true ∷ []) ∷ []

-- Partition 0, then 1, which evicts the block of 0, then 0 again.
abbrev pub calls : List SpillWrite
calls =
    selected 0 columns five hashes
    ∷ dense 1 2 hashes values 2 dense_validity
    ∷ selected 0 columns five hashes
    ∷ []

empty_set : SpillSet ListTape
empty_set = new_set 2 3 0

created : create (some attributes) 2 3 0 ≡ ok empty_set
unfolding create empty_set
created = refl

spilled_rows : length (rows_of_partition 2 calls 0) ≡ 8
unfolding rows_of_partition rows_written rows_where contains tabulate is_zero bit_and one_at
spilled_rows = refl

drain-spilled_example :
    (last done ready : SpillSet ListTape) × (reader : SpillReader) × (fold_result apply_write calls
        empty_set
      ≡ ok last)
    × (finish last true ≡ ok done)
    × (reader_open done (pos 0) ≡ ok (reader, ready))
    × Reads 9 ready reader (rows_of_partition 2 calls 0)
drain-spilled_example =
    drain-spilled attributes 2 3 0 empty_set calls true 0 9 created (omega arith)
      (
        (omega arith, omega arith, refl, refl, hashes-AreHashes, columns-HasInt32Values),
        (
          (omega arith, omega arith, omega arith, omega arith, hashes-AreHashes, values-AreInt32s),
          ((omega arith, omega arith, refl, refl, hashes-AreHashes, columns-HasInt32Values), tt),
        ),
      )
      (omega arith) (omega (arith, spilled_rows)) (omega (arith, spilled_rows))

empty_set-IsHealthy : IsHealthy empty_set (λ p. [])
unfolding empty_set
empty_set-IsHealthy = new_set-IsHealthy 2 3 0 (omega arith)

-- The set after the block of partition 0 was begun: it is full.
one_block : SpillSet ListTape
one_block = get_writer empty_set 0

one_block-IsReady : IsReady empty_set one_block (λ p. []) 0
unfolding one_block
one_block-IsReady =
    get_writer_lem empty_set (λ p. []) 0 (unfold empty_set new_set in omega arith)
      empty_set-IsHealthy

three_partitions : empty_set.npartitions ≡ 3
unfolding empty_set new_set
three_partitions = refl

one_block_active : 0 < one_block.active_writers
unfolding one_block empty_set new_set get_writer
one_block_active = omega arith

get_writer_lem_example : IsReady one_block (get_writer one_block 1) (λ p. []) 1
get_writer_lem_example =
    get_writer_lem one_block (λ p. []) 1
      (omega (arith, one_block-IsReady.frame.partitions, three_partitions))
      one_block-IsReady.healthy

victim_found_example :
    (v : ℕ) × (find_victim one_block.npartitions 0 one_block ≡ some v) × FirstBlock one_block v
victim_found_example = victim_found one_block one_block-IsReady.healthy.slots one_block_active

write-Appended_example :
    (written : SpillSet ListTape) × (write empty_set
        (pos 2)
        (some columns)
        (some five)
        (some hashes)
      ≡ ok written)
    × Appended empty_set written
        (λ p. [])
        2
        (map (batch_row empty_set.ncolumns columns hashes) (rows five))
write-Appended_example =
    write-Appended empty_set (λ p. []) 2 columns five hashes
      (unfold empty_set new_set in omega arith) (unfold empty_set new_set in refl)
      empty_set-IsHealthy (omega arith) refl refl hashes-AreHashes columns-HasInt32Values

write_dense-Appended_example :
    (written : SpillSet ListTape) × (write_dense empty_set
        (pos 1)
        2
        (some hashes)
        (some values)
        2
        (some dense_validity)
      ≡ ok written)
    × Appended empty_set written
        (λ p. [])
        1
        (tabulate 0 2 (dense_row empty_set.ncolumns hashes values 2 dense_validity))
write_dense-Appended_example =
    write_dense-Appended empty_set (λ p. []) 1 2 hashes values 2 dense_validity
      (unfold empty_set new_set in omega arith) (unfold empty_set new_set in refl)
      empty_set-IsHealthy (omega arith) (omega arith) (omega arith) hashes-AreHashes
      values-AreInt32s

finish-IsFinished_example :
    (done : SpillSet ListTape) × (finish empty_set false ≡ ok done)
    × IsFinished false done (λ p. [])
    × (done.npartitions ≡ empty_set.npartitions)
    × (done.ncolumns ≡ empty_set.ncolumns)
finish-IsFinished_example =
    finish-IsFinished empty_set (λ p. []) false (unfold empty_set new_set in refl)
      empty_set-IsHealthy

reader_next-Answer_example : Answer empty_set 0
reader_next-Answer_example = reader_next-Answer empty_set 0
