-- ===== src/Spill/Shared/Participants.antt =====
-- spill/spill.c: the participants of a parallel node end in any order, and a reader gives all their rows.
use pg_batch.Prelude.{
  ℕ, ◌%◌, ◌^◌, ◌≤◌, ◌<◌, ◌≡◌, refl, sym, ap, ◌∙◌, ◌⊎◌, inl, inr, Bool, true, false, ◌||◌, List, [],
  ◌∷◌, none, some, arith, length, subst, ◌==◌, ==_iff, Bool-cases,
}
use pg_batch.Prelude.Int.{pos}
use pg_batch.Prelude.Result.{ok, fold_result}
use pg_batch.Postgres.{PgBitutils}
use pg_batch.Spill.Bytes.{All}
use pg_batch.Spill.Tape.{LogicalTape}
use pg_batch.Spill.Block.{SpillRow}
use pg_batch.Spill.Partitions.{Attribute, check_columns, column_count}
use pg_batch.Spill.History.{SpillWrite, AllAccepted}
use pg_batch.Spill.Shared.Files.{
  SharedSpill, SharedReader, shared_partition_rows, shared_reader_open,
}
use pg_batch.Spill.Shared.Files.Counts.{shared_partition_rows-logs_from}
use pg_batch.Spill.Shared.Files.Published.{Exported, same-Exported}
use pg_batch.Spill.Shared.Files.Finished.{IsPublished, Others}
use pg_batch.Spill.Shared.Files.Opened.{logs_from, IsComplete}
use pg_batch.Spill.Shared.Files.Drained.{shared_drain, drain-logs_from}
use pg_batch.Spill.Shared.History.{run_participant, rows_of_participant, participant_run}

-- The number stands in the list.
abbrev pub is_listed : ℕ → List ℕ → Bool
is_listed i [] = false
is_listed i (j ∷ js) = (i == j) || is_listed i js

module _ {File : Type 0} ⦃tape : LogicalTape File⦄ where
  -- What a participant has published stays when another one ends.
  other-IsPublished :
      (np n : ℕ) (before after : SharedSpill File) (i j : ℕ) (log : ℕ → List SpillRow)
      → Others j before after
      → (i == j) ≡ false
      → IsPublished np n before i log
      → IsPublished np n after i log
  other-IsPublished np n before after i j log others apart h =
      let (rows, flag, files) = others i apart in
      record {
        flag = flag ∙ h.flag;
        exported = λ p inside.
            same-Exported n n (before.rows i p) (after.rows i p) (before.files i p)
              (after.files i p) (log p) refl (ap (λ f. f p) rows) (files p) (h.exported p inside);
      }

module _ {File : Type 0} ⦃tape : LogicalTape File⦄ ⦃pg : PgBitutils⦄ where
  -- What the participants have published after they ended in some order.
  record AllPublished (parts np n : ℕ) (before after : SharedSpill File) (order : List ℕ)
      (cs : ℕ → List SpillWrite) : Type 0 where
    participants : after.participants ≡ parts
    partitions : after.partitions ≡ np
    columns : after.ncolumns ≡ n
    each :
        (i : ℕ)
        → IsPublished np n before i (rows_of_participant n cs i) ⊎ is_listed i order ≡ true
        → IsPublished np n after i (rows_of_participant n cs i)

  fold-AllPublished :
      (attributes : List Attribute) (limit parts np n : ℕ) (cs : ℕ → List SpillWrite)
      (order : List ℕ) (shared : SharedSpill File)
      → shared.participants ≡ parts
      → shared.partitions ≡ np
      → shared.ncolumns ≡ n
      → All (λ i. i < parts) order
      → 0 < np
      → n ≤ column_count attributes
      → check_columns n 0 attributes ≡ none
      → ((i : ℕ) → i < parts → AllAccepted np (cs i))
      → (after : SharedSpill File) × (fold_result (run_participant attributes limit cs) order shared
          ≡ ok after)
        × AllPublished parts np n shared after order cs
  unfolding fold_result
  fold-AllPublished attributes limit parts np n cs [] shared a b c inside some_part wide int4 acc =
      (
        shared,
        refl,
        record {
          participants = a;
          partitions = b;
          columns = c;
          each =
              λ i h. elim h [ inl before ↦ before | inr listed ↦ absurd (ground (arith, listed)) ];
        },
      )
  fold-AllPublished attributes limit parts np n cs (j ∷ js) shared a b c inside some_part wide int4
        acc =
      let (next, runs, published, others, (p2, q2, c2)) =
        participant_run attributes limit j cs shared (omega (arith, a, inside.0))
          (omega (arith, b, some_part)) (omega (arith, c, wide))
          (ap (λ m. check_columns m 0 attributes) c ∙ int4)
          (subst (λ m. AllAccepted m (cs j)) (sym b) (acc j (inside.0))) in
      let here : IsPublished np n next j (rows_of_participant n cs j) =
        subst (λ m. IsPublished m n next j (rows_of_participant n cs j)) b
          (subst (λ m. IsPublished shared.partitions m next j (rows_of_participant m cs j)) c
            published) in
      let (after, rest, all) =
        fold-AllPublished attributes limit parts np n cs js next (p2 ∙ a) (q2 ∙ b) (c2 ∙ c)
          (inside.1) some_part wide int4 acc in
      (
        after,
        rw (runs, rest),
        record {
          participants = all.participants;
          partitions = all.partitions;
          columns = all.columns;
          each = λ i h. all.each i (elim (Bool-cases (i == j)) [
            | inl same ↦
                let here_too : i ≡ j = (==_iff i j).0 same in
                inl (
                  subst (λ k. IsPublished np n next k (rows_of_participant n cs k)) (sym here_too)
                    here)
            | inr apart ↦ elim h [
              | inl before ↦ inl (
                  other-IsPublished np n shared next i j (rows_of_participant n cs i) others apart
                    before)
              | inr listed ↦ inr (ground (arith, listed, apart))
            ]
          ]);
        },
      )

  -- The participants of a parallel node write whatever calls they accept, and end in
  -- any order in which each of them stands. Then a reader of a partition gives all rows that the participants wrote to it,
  -- those of the first participant, then those of the second, and so on, each in the order of its
  -- calls, and then ends; nothing errs. The count of the partition is the number of those rows, reduced
  -- to 64 bits. A participant has fewer than 2^64 rows in the partition and
  -- the client has a round for each row and one more.
  pub drain-participants :
      (attributes : List Attribute) (limit : ℕ) (cs : ℕ → List SpillWrite) (order : List ℕ)
      (shared : SharedSpill File) (p fuel : ℕ)
      → All (λ i. i < shared.participants) order
      → ((i : ℕ) → i < shared.participants → is_listed i order ≡ true)
      → shared.ncolumns ≤ column_count attributes
      → check_columns shared.ncolumns 0 attributes ≡ none
      → shared.ncolumns < 2 ^ 16
      → ((i : ℕ) → i < shared.participants → AllAccepted shared.partitions (cs i))
      → p < shared.partitions
      → ((i : ℕ)
          → i < shared.participants
          → length (rows_of_participant shared.ncolumns cs i p) < 2 ^ 64)
      → length (logs_from shared.participants 0 (λ i. rows_of_participant shared.ncolumns cs i p))
        < fuel
      → (after : SharedSpill File) × (reader last : SharedReader File) × (fold_result
            (run_participant attributes limit cs)
            order
            shared
          ≡ ok after)
        × (shared_partition_rows after (pos p)
            ≡ ok (
                length (
                  logs_from shared.participants 0 (λ i. rows_of_participant shared.ncolumns cs i p))
                % 2 ^ 64))
        × (shared_reader_open after (pos p) ≡ ok reader)
        × (shared_drain fuel after reader
            ≡ ok (
                some (
                  logs_from shared.participants 0 (λ i. rows_of_participant shared.ncolumns cs i p),
                  last,
                )))
  drain-participants attributes limit cs order shared p fuel within listed wide int4 small accepted
        inside words64 enough =
      let parts = shared.participants in
      let np = shared.partitions in
      let n = shared.ncolumns in
      let log : ℕ → List SpillRow = λ i. rows_of_participant n cs i p in
      let (after, runs, all) =
        fold-AllPublished attributes limit parts np n cs order shared refl refl refl within
          (omega (arith, inside)) wide int4 accepted in
      let complete : IsComplete after p log = record {
        small = omega (arith, all.columns, small);
        flags = λ i a. (all.each i (inr (listed i (omega (arith, a, all.participants))))).flag;
        exported = λ i a.
            subst (λ m. Exported m (after.rows i p) (after.files i p) (log i)) (sym all.columns)
              ((all.each i (inr (listed i (omega (arith, a, all.participants))))).exported p
                inside);
        words64 = λ i a. words64 i (omega (arith, a, all.participants));
      } in
      let total : logs_from after.participants 0 log ≡ logs_from parts 0 log =
        ap (λ m. logs_from m 0 log) all.participants in
      let (reader, last, opens, drained) =
        drain-logs_from after p log complete fuel (omega (arith, all.partitions, inside))
          (omega (arith, enough, ap (length {A = SpillRow}) total)) in
      (
        after,
        reader,
        last,
        runs,
        shared_partition_rows-logs_from after p log complete (omega (arith, all.partitions, inside))
            ∙ ap (λ rows. ok (length {A = SpillRow} rows % 2 ^ 64)) total,
        opens,
        drained ∙ ap (λ rows. ok (some (rows, last))) total,
      )
