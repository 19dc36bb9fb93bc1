-- ===== src/Spill/Shared/History.antt =====
-- spill/spill.c: the spill files of a parallel node, from the creation of its participants' writers over
-- any writes to a reader of all participants.
use pg_batch.Prelude.{
  ℕ, ◌≤◌, ◌<◌, ◌≡◌, refl, sym, ap, ◌∙◌, false, ◌||◌, List, [], ◌∷◌, some, none, arith, subst, ltb,
  leb,
}
use pg_batch.Prelude.Int.{pos}
use pg_batch.Prelude.Result.{Result, ok, err, ◌>>=◌, fold_result}
use pg_batch.Postgres.{PgBitutils}
use pg_batch.Spill.Tape.{LogicalTape}
use pg_batch.Spill.Block.{SpillRow}
use pg_batch.Spill.Partitions.{
  SpillSet, SpillError, Attribute, check_columns, column_count, new_set,
}
use pg_batch.Spill.Partitions.Steps.{Represents}
use pg_batch.Spill.History.{
  SpillWrite, selected, dense, AllAccepted, rows_of_partition, apply_write, new_set-IsHealthy, Run,
  fold-apply_write,
}
use pg_batch.Spill.Shared.{
  SharedWriter, new_shared_writer, shared_writer_create, shared_write, shared_write_dense,
}
use pg_batch.Spill.Shared.AsSet.{local}
use pg_batch.Spill.Shared.Local.{local_result, local-write, local-write_dense}
use pg_batch.Spill.Shared.Owner.{KeepsOwner, shared_write-KeepsOwner, shared_write_dense-KeepsOwner}
use pg_batch.Spill.Shared.Files.{SharedSpill, shared_writer_finish}
use pg_batch.Spill.Shared.Files.Finished.{IsPublished, Others, shared_writer_finish-IsPublished}

-- The rows that a participant writes to a partition.
abbrev pub rows_of_participant : ℕ → (ℕ → List SpillWrite) → ℕ → ℕ → List SpillRow
rows_of_participant ncolumns cs i p = rows_of_partition ncolumns (cs i) p

module _ {File : Type 0} ⦃tape : LogicalTape File⦄ ⦃pg : PgBitutils⦄ where
  pub shared_apply_write : SpillWrite → SharedWriter File → Result SpillError (SharedWriter File)
  shared_apply_write (selected p columns s hashes) w =
      shared_write w (pos p) (some columns) (some s) (some hashes)
  shared_apply_write (dense p nrows hashes values stride validity) w =
      shared_write_dense w (pos p) nrows (some hashes) (some values) stride (some validity)

  local-apply_write :
      (c : SpillWrite) (w : SharedWriter File)
      → local_result (shared_apply_write c w) ≡ apply_write c (local w)
  unfolding shared_apply_write apply_write
  local-apply_write (selected p columns s hashes) w =
      local-write w (pos p) (some columns) (some s) (some hashes)
  local-apply_write (dense p nrows hashes values stride validity) w =
      local-write_dense w (pos p) nrows (some hashes) (some values) stride (some validity)

  apply-KeepsOwner :
      (c : SpillWrite) (w : SharedWriter File) → KeepsOwner w (shared_apply_write c w)
  unfolding shared_apply_write
  apply-KeepsOwner (selected p columns s hashes) w =
      shared_write-KeepsOwner w (pos p) columns s hashes
  apply-KeepsOwner (dense p nrows hashes values stride validity) w =
      shared_write_dense-KeepsOwner w (pos p) nrows hashes values stride validity

  -- The writer that the calls leave, with its spill set.
  record Written (w last : SharedWriter File) (set : SpillSet File) : Type 0 where
    is_set : local last ≡ set
    owner : last.participant ≡ w.participant

  lifted :
      (w : SharedWriter File) (r : Result SpillError (SharedWriter File)) (set : SpillSet File)
      → local_result r ≡ ok set
      → KeepsOwner w r
      → (last : SharedWriter File) × (r ≡ ok last) × Written w last set
  lifted w (ok last) set e h = (last, refl, record { is_set = ground (arith, e); owner = h })
  lifted w (err x) set e h = absurd (ground (arith, e))

  -- A run of calls that a set accepts is accepted by the participant.
  fold-lifted :
      (cs : List SpillWrite) (w : SharedWriter File) (set : SpillSet File)
      → fold_result apply_write cs (local w) ≡ ok set
      → (last : SharedWriter File) × (fold_result shared_apply_write cs w ≡ ok last)
        × Written w last set
  unfolding fold_result
  fold-lifted [] w set e = (w, refl, record { is_set = ground (arith, e); owner = refl })
  fold-lifted (c ∷ cs) w set e =
      by_first (shared_apply_write c w)
        (ap (λ r. r >>= fold_result apply_write cs) (local-apply_write c w) ∙ e)
        (apply-KeepsOwner c w) (λ next h. fold-lifted cs next set h)
    where
      by_first :
          (r : Result SpillError (SharedWriter File))
          → (local_result r >>= fold_result apply_write cs) ≡ ok set
          → KeepsOwner w r
          → ((next : SharedWriter File)
              → fold_result apply_write cs (local next) ≡ ok set
              → (last : SharedWriter File) × (fold_result shared_apply_write cs next ≡ ok last)
                × Written next last set)
          → (last : SharedWriter File) × ((r >>= fold_result shared_apply_write cs) ≡ ok last)
            × Written w last set
      by_first (ok next) h owner rest =
          let (last, runs, written) = rest next h in
          (last, runs, record { is_set = written.is_set; owner = written.owner ∙ owner })
      by_first (err x) h owner rest = absurd (ground (arith, h))

  -- The life of one participant: it creates its writer, writes, and ends.
  pub run_participant :
      List Attribute
      → ℕ
      → (ℕ → List SpillWrite)
      → ℕ
      → SharedSpill File
      → Result SpillError (SharedSpill File)
  run_participant attributes limit cs i shared =
      shared_writer_create shared.participants shared.partitions shared.ncolumns i (some attributes)
        limit
      >>= λ w. fold_result shared_apply_write (cs i) w >>= λ v.
          shared_writer_finish v shared >>= λ r. ok (r.1)

  abbrev pub SameShape : SharedSpill File → SharedSpill File → Type 0
  SameShape before after =
      (after.participants ≡ before.participants)
      × (after.partitions ≡ before.partitions)
      × (after.ncolumns ≡ before.ncolumns)

  created :
      (attributes : List Attribute) (limit i : ℕ) (shared : SharedSpill File)
      → i < shared.participants
      → shared.ncolumns ≤ column_count attributes
      → check_columns shared.ncolumns 0 attributes ≡ none
      → ◌≡◌ {A = Result SpillError (SharedWriter File)}
          (shared_writer_create shared.participants shared.partitions shared.ncolumns i
            (some attributes)
            limit)
          (ok (new_shared_writer i shared.partitions shared.ncolumns limit))
  unfolding shared_writer_create
  created attributes limit i shared inside wide int4 =
      let named : (leb shared.participants i || ltb (column_count attributes) shared.ncolumns)
          ≡ false =
        ground (arith, inside, wide) in
      rw (named, int4)

  -- A writer that has been used: what its end needs.
  record Used (i partitions ncolumns : ℕ) (last : SharedWriter File) (log : ℕ → List SpillRow)
      : Type 0 where
    owner : last.participant ≡ i
    partitions_kept : last.partitions ≡ partitions
    columns_kept : last.ncolumns ≡ ncolumns
    writing : last.finished ≡ false
    represents : Represents (local last) log

  used :
      (i partitions ncolumns limit : ℕ) (last : SharedWriter File) (set : SpillSet File)
      (log : ℕ → List SpillRow)
      → Written (new_shared_writer i partitions ncolumns limit) last set
      → Run (new_set ncolumns partitions limit) set log
      → Used i partitions ncolumns last log
  unfolding local new_shared_writer new_set
  used i partitions ncolumns limit last set log h run = record {
    owner = h.owner;
    partitions_kept = ap (λ (s : SpillSet File). s.npartitions) h.is_set ∙ run.frame.partitions;
    columns_kept = ap (λ (s : SpillSet File). s.ncolumns) h.is_set ∙ run.frame.columns;
    writing = ap (λ (s : SpillSet File). s.finished) h.is_set ∙ run.frame.finish_flag;
    represents = subst (λ s. Represents s log) (sym h.is_set) run.healthy.logs;
  }

  -- The writes of a participant.
  participant_writes :
      (limit i partitions ncolumns : ℕ) (cs : List SpillWrite)
      → 0 < partitions
      → AllAccepted partitions cs
      → (last : SharedWriter File) × (fold_result shared_apply_write cs
            (new_shared_writer i partitions ncolumns limit)
          ≡ ok last)
        × Used i partitions ncolumns last (rows_of_partition ncolumns cs)
  participant_writes limit i partitions ncolumns cs some_partition accepted =
      let start : SpillSet File = new_set ncolumns partitions limit in
      let w : SharedWriter File = new_shared_writer i partitions ncolumns limit in
      let same : local w ≡ start = unfold local new_shared_writer new_set in refl in
      let columns : start.ncolumns ≡ ncolumns = unfold new_set in refl in
      let parts : start.npartitions ≡ partitions = unfold new_set in refl in
      let writing : start.finished ≡ false = unfold new_set in refl in
      let (set, writes, run) =
        fold-apply_write cs ncolumns partitions start (λ q. []) columns parts accepted writing
          (new_set-IsHealthy ncolumns partitions limit some_partition) in
      let (last, runs, written) =
        fold-lifted cs w set (ap (fold_result apply_write cs) same ∙ writes) in
      (
        last,
        runs,
        used i partitions ncolumns limit last set (rows_of_partition ncolumns cs) written run,
      )

  pub participant_run :
      (attributes : List Attribute) (limit i : ℕ) (cs : ℕ → List SpillWrite)
      (shared : SharedSpill File)
      → i < shared.participants
      → 0 < shared.partitions
      → shared.ncolumns ≤ column_count attributes
      → check_columns shared.ncolumns 0 attributes ≡ none
      → AllAccepted shared.partitions (cs i)
      → (after : SharedSpill File) × (run_participant attributes limit cs i shared ≡ ok after)
        × IsPublished shared.partitions shared.ncolumns after i
            (rows_of_participant shared.ncolumns cs i)
        × Others i shared after
        × SameShape shared after
  unfolding run_participant
  participant_run attributes limit i cs shared inside some_partition wide int4 accepted =
      let n = shared.ncolumns in
      let np = shared.partitions in
      let log = rows_of_participant n cs i in
      let (last, runs, u) = participant_writes limit i np n (cs i) some_partition accepted in
      let (done, after, finishes, published, others, participants, partitions, columns) =
        shared_writer_finish-IsPublished last shared log u.writing u.represents in
      (
        after,
        rw (created attributes limit i shared inside wide int4, runs, finishes),
        subst (λ a. IsPublished a n after i log) u.partitions_kept
            (subst (λ b. IsPublished last.partitions b after i log) u.columns_kept
              (subst (λ j. IsPublished last.partitions last.ncolumns after j log) u.owner
                published)),
        subst (λ j. Others j shared after) u.owner others,
        (participants, partitions, columns),
      )
