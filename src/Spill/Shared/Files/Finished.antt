-- ===== src/Spill/Shared/Files/Finished.antt =====
-- spill/spill.c: what the shared object holds after pg_batch_shared_spill_writer_finish.
use pg_batch.Prelude.{ℕ, ◌+◌, ◌<◌, ◌≡◌, refl, ap, true, false, List, arith, ◌==◌}
use pg_batch.Prelude.Result.{ok}
use pg_batch.Spill.Tape.{LogicalTape}
use pg_batch.Spill.Block.{SpillRow}
use pg_batch.Spill.Partitions.Steps.{Represents}
use pg_batch.Spill.Shared.{SharedWriter}
use pg_batch.Spill.Shared.AsSet.{local}
use pg_batch.Spill.Shared.Files.{SharedSpill, shared_finish_loop, publish, shared_writer_finish}
use pg_batch.Spill.Shared.Files.Published.{Exported, same-Exported, Same-refl}
use pg_batch.Spill.Shared.Files.Progress.{Progress, loop-Progress}

module _ {File : Type 0} ⦃tape : LogicalTape File⦄ where
  -- What the shared object shows of a participant that has ended.
  pub record IsPublished (partitions ncolumns : ℕ) (shared : SharedSpill File) (i : ℕ)
      (log : ℕ → List SpillRow) : Type 0 where
    pub flag : shared.finished i ≡ true
    pub exported :
        (p : ℕ) → p < partitions → Exported ncolumns (shared.rows i p) (shared.files i p) (log p)

  -- The other participants are as before.
  abbrev pub Others : ℕ → SharedSpill File → SharedSpill File → Type 0
  Others me before after =
      (i : ℕ)
      → (i == me) ≡ false
      → (after.rows i ≡ before.rows i)
        × (after.finished i ≡ before.finished i)
        × ((p : ℕ) → after.files i p ≡ before.files i p)

  published :
      (w : SharedWriter File) (shared : SharedSpill File) (log : ℕ → List SpillRow)
      (state : SharedWriter File × SharedSpill File)
      → Progress w shared log (0 + w.partitions) state
      → IsPublished w.partitions w.ncolumns ((publish state).1) w.participant log
        × Others w.participant shared ((publish state).1)
  unfolding publish
  published w shared log state h =
      let self : (w.participant == (state.0).participant) ≡ true =
        ground (arith, h.same.participant) in
      (
        record {
          flag = rw self;
          exported = λ p inside.
              same-Exported w.ncolumns w.ncolumns (w.partition_rows p)
                (((publish state).1).rows w.participant p) ((state.1).files w.participant p)
                ((state.1).files w.participant p) (log p) refl
                (rw self (ap (λ f. f p) h.same.counts)) refl (h.done p (omega arith));
        },
        λ i other.
            let apart : (i == (state.0).participant) ≡ false =
              ground (arith, other, h.same.participant) in
            (
              rw apart (ap (λ f. f i) h.rows),
              rw apart (ap (λ f. f i) h.flags),
              λ p. h.others i p other,
            ),
      )

  -- The end of a participant's writer that is still writing publishes a frozen file for every partition
  -- that has rows, with all rows of the partition's log in it, and leaves the other participants alone.
  pub shared_writer_finish-IsPublished :
      (w : SharedWriter File) (shared : SharedSpill File) (log : ℕ → List SpillRow)
      → w.finished ≡ false
      → Represents (local w) log
      → (done : SharedWriter File) × (after : SharedSpill File) × (shared_writer_finish w shared
          ≡ ok (done, after))
        × IsPublished w.partitions w.ncolumns after w.participant log
        × Others w.participant shared after
        × (after.participants ≡ shared.participants)
        × (after.partitions ≡ shared.partitions)
        × (after.ncolumns ≡ shared.ncolumns)
  unfolding shared_writer_finish publish
  shared_writer_finish-IsPublished w shared log writing h =
      let start : Progress w shared log 0 (w, shared) = record {
        same = Same-refl w;
        rows = refl;
        flags = refl;
        shape = (refl, refl, refl);
        done = λ q a. absurd (omega arith);
        todo = λ q a. h q;
        others = λ i q e. refl;
      } in
      let last = shared_finish_loop w.partitions 0 (w, shared) in
      let end = loop-Progress w.partitions 0 w shared log w shared start in
      let state = publish last in
      let shows = published w shared log last end in
      (state.0, state.1, rw writing, shows.0, shows.1, end.shape.0, end.shape.1, end.shape.2)
