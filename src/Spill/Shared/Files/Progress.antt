-- ===== src/Spill/Shared/Files/Progress.antt =====
-- spill/spill.c: the loop of pg_batch_shared_spill_writer_finish over the partitions.
use pg_batch.Prelude.{
  ℕ, zero, suc, ◌+◌, ◌≤◌, ◌<◌, ◌≡◌, sym, ap, ◌∙◌, inl, inr, false, List, arith, subst, ◌==◌, ==_iff,
  Bool-cases,
}
use pg_batch.Spill.Tape.{LogicalTape}
use pg_batch.Spill.Block.{SpillRow}
use pg_batch.Spill.Partitions.{flush_writer, free_writer}
use pg_batch.Spill.Partitions.Steps.{Untouched, Untouched-Logs, IsDrained, LogsAt, flush_other}
use pg_batch.Spill.Partitions.Evict.{flush_writer-IsDrained}
use pg_batch.Spill.Partitions.Write.Finish.{free_other}
use pg_batch.Spill.Partitions.Write.Finished.{Untouched-trans, flushed_log}
use pg_batch.Spill.Shared.{SharedWriter, shared_free_writer, shared_flush_writer}
use pg_batch.Spill.Shared.AsSet.{local, local-flush_writer, local-free_writer}
use pg_batch.Spill.Shared.Files.{
  SharedSpill, export_file, shared_finish_partition, shared_finish_loop,
}
use pg_batch.Spill.Shared.Files.Published.{
  Exported, frozen_file, same-Exported, frozen-Exported, Same, Same-trans, free_step, flush_step,
  export_file-Export,
}

module _ {File : Type 0} ⦃tape : LogicalTape File⦄ where
  freed_of : SharedWriter File → ℕ → SharedWriter File
  freed_of w p = shared_free_writer (shared_flush_writer w p) p

  freed-Same :
      (w : SharedWriter File) (p : ℕ)
      → Same w (freed_of w p) × ((freed_of w p).files ≡ (shared_flush_writer w p).files)
  unfolding freed_of shared_free_writer shared_flush_writer
  freed-Same w p =
      let a = shared_flush_writer w p in
      let (same, files) = free_step a p (a.writers p) in
      (Same-trans w a (shared_free_writer a p) (flush_step w p (w.writers p)) same, files)

  freed_other :
      (w : SharedWriter File) (p q : ℕ)
      → (q == p) ≡ false
      → Untouched q (local w) (local (freed_of w p))
  unfolding freed_of flush_writer free_writer
  freed_other w p q e =
      let a = shared_flush_writer w p in
      let flushed = flush_writer (local w) p in
      subst (Untouched q (local w))
        (sym (local-free_writer a p ∙ ap (λ s. free_writer s p) (local-flush_writer w p)))
        (Untouched-trans q (local w) flushed (free_writer flushed p)
          (flush_other (local w) p q ((local w).writers p) e)
          (free_other flushed p q (flushed.writers p) e))

  flushed-Drained : (w : SharedWriter File) (p : ℕ) → IsDrained (local (shared_flush_writer w p)) p
  flushed-Drained w p =
      subst (λ s. IsDrained s p) (sym (local-flush_writer w p)) (flush_writer-IsDrained (local w) p)

  flushed-LogsAt :
      (w : SharedWriter File) (p : ℕ) (log : List SpillRow)
      → LogsAt (local w) p log
      → LogsAt (local (shared_flush_writer w p)) p log
  flushed-LogsAt w p log h =
      subst (λ s. LogsAt s p log) (sym (local-flush_writer w p)) (flushed_log (local w) p log h)

  -- The end of the partitions before `k`: their files are exported, the others hold their logs.
  pub record Progress (w : SharedWriter File) (shared : SharedSpill File) (log : ℕ → List SpillRow)
      (k : ℕ) (state : SharedWriter File × SharedSpill File) : Type 0 where
    pub same : Same w (state.0)
    pub rows : (state.1).rows ≡ shared.rows
    pub flags : (state.1).finished ≡ shared.finished
    pub shape :
        ((state.1).participants ≡ shared.participants)
        × ((state.1).partitions ≡ shared.partitions)
        × ((state.1).ncolumns ≡ shared.ncolumns)
    pub done :
        (q : ℕ)
        → q < k
        → Exported w.ncolumns (w.partition_rows q) ((state.1).files w.participant q) (log q)
    pub todo : (q : ℕ) → k ≤ q → LogsAt (local (state.0)) q (log q)
    pub others : (i q : ℕ) → (i == w.participant) ≡ false → (state.1).files i q ≡ shared.files i q

  flushed-Same : (w : SharedWriter File) (p : ℕ) → Same w (shared_flush_writer w p)
  unfolding shared_flush_writer
  flushed-Same w p = flush_step w p (w.writers p)

  drained_file :
      (v : SharedWriter File) (s : SharedSpill File) (k : ℕ) (log : List SpillRow)
      → LogsAt (local v) k log
      → Exported
          (shared_flush_writer v k).ncolumns
          ((shared_flush_writer v k).partition_rows k)
          (frozen_file (s.files v.participant k) ((shared_flush_writer v k).files k))
          log
  unfolding local
  drained_file v s k log h =
      let a = shared_flush_writer v k in
      frozen-Exported a.ncolumns (a.partition_rows k) (a.files k) (s.files v.participant k)
        (a.writers k) log (flushed-Drained v k) (flushed-LogsAt v k log h)

  -- The file of the partition that is exported.
  finish_partition-Exported :
      (v : SharedWriter File) (s : SharedSpill File) (k : ℕ) (log : List SpillRow)
      → LogsAt (local v) k log
      → Exported v.ncolumns
          (v.partition_rows k)
          ((shared_finish_partition k (v, s)).1.files v.participant k)
          log
  unfolding shared_finish_partition freed_of
  finish_partition-Exported v s k log h =
      let a = shared_flush_writer v k in
      let freed = freed_of v k in
      let (same, files) = freed-Same v k in
      let flushed = flushed-Same v k in
      let out = export_file-Export k (freed.files k) freed s in
      let end = export_file k (freed.files k) (freed, s) in
      let name : (end.1).files v.participant k ≡ frozen_file (s.files v.participant k) (a.files k) =
        ap (λ i. (end.1).files i k) (sym same.participant)
        ∙ out.here
        ∙ ap (λ i. frozen_file (s.files i k) (freed.files k)) same.participant
        ∙ ap (λ f. frozen_file (s.files v.participant k) (f k)) files in
      same-Exported a.ncolumns v.ncolumns (a.partition_rows k) (v.partition_rows k)
        (frozen_file (s.files v.participant k) (a.files k)) ((end.1).files v.participant k) log
        (sym flushed.columns) (sym (ap (λ f. f k) flushed.counts)) name (drained_file v s k log h)

  next-Progress :
      (w : SharedWriter File) (shared : SharedSpill File) (log : ℕ → List SpillRow) (k : ℕ)
      (v : SharedWriter File) (s : SharedSpill File)
      → Progress w shared log k (v, s)
      → Progress w shared log (k + 1) (shared_finish_partition k (v, s))
  unfolding shared_finish_partition freed_of
  next-Progress w shared log k v s h =
      let freed = freed_of v k in
      let (same, files) = freed-Same v k in
      let out = export_file-Export k (freed.files k) freed s in
      let end = export_file k (freed.files k) (freed, s) in
      let me : freed.participant ≡ w.participant = same.participant ∙ h.same.participant in
      record {
        same = Same-trans w v (end.0) h.same (Same-trans v freed (end.0) same out.same);
        rows = out.rows ∙ h.rows;
        flags = out.flags ∙ h.flags;
        shape = (out.shape.0 ∙ h.shape.0, out.shape.1 ∙ h.shape.1, out.shape.2 ∙ h.shape.2);
        done = λ q a. elim (Bool-cases (q == k)) [
          | inl same_partition ↦
              let here : q ≡ k = (==_iff q k).0 same_partition in
              subst
                (λ j.
                  Exported w.ncolumns (w.partition_rows j) ((end.1).files w.participant j) (log j))
                (sym here)
                (same-Exported v.ncolumns w.ncolumns (v.partition_rows k) (w.partition_rows k)
                  ((end.1).files v.participant k) ((end.1).files w.participant k) (log k)
                  (sym h.same.columns) (sym (ap (λ f. f k) h.same.counts))
                  (ap (λ i. (end.1).files i k) (sym h.same.participant))
                  (finish_partition-Exported v s k (log k) (h.todo k (omega arith))))
          | inr other ↦
              let earlier = h.done q (ground (arith, a, other)) in
              subst (λ f. Exported w.ncolumns (w.partition_rows q) f (log q))
                (sym (out.there w.participant q (inl other))) earlier
        ];
        todo = λ q a.
            let other : (q == k) ≡ false = ground (arith, a) in
            Untouched-Logs q (local v) (local (end.0)) (log q)
              (Untouched-trans q (local v) (local freed) (local (end.0)) (freed_other v k q other)
                (out.other q other))
              (h.todo q (omega arith));
        others = λ i q e. out.there i q (inr (ap (λ m. i == m) me ∙ e)) ∙ h.others i q e;
      }

  pub loop-Progress :
      (n k : ℕ) (w : SharedWriter File) (shared : SharedSpill File) (log : ℕ → List SpillRow)
      (v : SharedWriter File) (s : SharedSpill File)
      → Progress w shared log k (v, s)
      → Progress w shared log (k + n) (shared_finish_loop n k (v, s))
  unfolding shared_finish_loop
  loop-Progress zero k w shared log v s h = let z : k + 0 ≡ k = omega arith in rw z h
  loop-Progress (suc n) k w shared log v s h =
      let z : k + suc n ≡ k + 1 + n = omega arith in
      let next = shared_finish_partition k (v, s) in
      rw z (
        loop-Progress n (k + 1) w shared log (next.0) (next.1) (next-Progress w shared log k v s h))
