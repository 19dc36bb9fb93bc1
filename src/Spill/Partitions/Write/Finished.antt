-- ===== src/Spill/Partitions/Write/Finished.antt =====
-- spill/spill.c: the loop of pg_batch_spill_finish over the partitions, and the set that it leaves.
use pg_batch.Prelude.{
  ℕ, zero, suc, ◌+◌, ◌≤◌, ◌<◌, ◌≡◌, refl, sym, ap, ◌∙◌, inl, inr, Bool, true, false, List, none,
  arith, subst, ◌==◌, ==_iff, Bool-cases,
}
use pg_batch.Prelude.Result.{ok}
use pg_batch.Spill.Tape.{LogicalTape}
use pg_batch.Spill.Block.{SpillRow}
use pg_batch.Spill.Partitions.{SpillSet, flush_writer, free_writer}
use pg_batch.Spill.Partitions.Write.{rewind_partition, finish_partition, finish_loop, finish}
use pg_batch.Spill.Partitions.Slots.{Slots, count_writers, count_none}
use pg_batch.Spill.Partitions.Steps.{
  Frame, Frame-refl, Frame-trans, Untouched, Untouched-Logs, LogsAt, flush_self, flush_other,
  flush-Slots, free-Slots,
}
use pg_batch.Spill.Partitions.Evict.{
  IsHealthy, flush_writer-Frame, flush_writer-IsDrained, free_writer-Frame,
}
use pg_batch.Spill.Partitions.Write.Finish.{
  Readable, same-Readable, free_self, free_other, rewind_other, rewind-Slots, rewind-Frame,
  rewind-Readable,
}

pub Untouched-trans :
    {Tape : Type 0} (p : ℕ) (a b c : SpillSet Tape)
    → Untouched p a b
    → Untouched p b c
    → Untouched p a c
Untouched-trans p a b c f g = record {
  columns = g.columns ∙ f.columns;
  same_tape = g.same_tape ∙ f.same_tape;
  same_writer = g.same_writer ∙ f.same_writer;
  same_rows = g.same_rows ∙ f.same_rows;
}

module _ {Tape : Type 0} ⦃tape : LogicalTape Tape⦄ where
  -- The partition can be read and has no block.
  abbrev pub Sealed : Bool → SpillSet Tape → ℕ → List SpillRow → Type 0
  Sealed frozen set p log = Readable frozen set p log × (set.writers p ≡ none)

  partition_other :
      (frozen : Bool) (set : SpillSet Tape) (q p : ℕ)
      → (p == q) ≡ false
      → Untouched p set (finish_partition frozen set q)
  unfolding finish_partition flush_writer free_writer
  partition_other frozen set q p e =
      let flushed = flush_writer set q in
      let ready = rewind_partition frozen flushed q in
      Untouched-trans p set flushed (free_writer ready q) (flush_other set q p (set.writers q) e) (
        Untouched-trans p flushed ready (free_writer ready q) (rewind_other frozen flushed q p e)
          (free_other ready q p (ready.writers q) e))

  pub flushed_log :
      (set : SpillSet Tape) (p : ℕ) (log : List SpillRow)
      → LogsAt set p log
      → LogsAt (flush_writer set p) p log
  unfolding flush_writer
  flushed_log set p log h = flush_self set p log (set.writers p) refl h

  partition_self :
      (frozen : Bool) (set : SpillSet Tape) (p : ℕ) (log : List SpillRow)
      → LogsAt set p log
      → Sealed frozen (finish_partition frozen set p) p log
  unfolding finish_partition free_writer
  partition_self frozen set p log h =
      let flushed = flush_writer set p in
      let ready = rewind_partition frozen flushed p in
      let readable =
        rewind-Readable frozen flushed p log (flush_writer-IsDrained set p)
          (flushed_log set p log h) in
      let (freed, tapes, rows, columns) = free_self ready p (ready.writers p) refl in
      (
        same-Readable frozen p ready (free_writer ready p) log columns (ap (λ f. f p) tapes)
            (ap (λ f. f p) rows) readable,
        freed,
      )

  flushed-Slots :
      (set : SpillSet Tape) (p : ℕ) → p < set.npartitions → Slots set → Slots (flush_writer set p)
  unfolding flush_writer
  flushed-Slots set p small h = flush-Slots set p (set.writers p) refl small h

  partition-Slots :
      (frozen : Bool) (set : SpillSet Tape) (p : ℕ)
      → p < set.npartitions
      → Slots set
      → Slots (finish_partition frozen set p)
  unfolding finish_partition free_writer
  partition-Slots frozen set p small h =
      let flushed = flush_writer set p in
      let ready = rewind_partition frozen flushed p in
      let frame =
        Frame-trans set flushed ready (flush_writer-Frame set p) (rewind-Frame frozen flushed p) in
      free-Slots ready p (ready.writers p) refl (omega (arith, frame.partitions, small))
        (rewind-Slots frozen flushed p (flushed-Slots set p small h))

  partition-Frame :
      (frozen : Bool) (set : SpillSet Tape) (p : ℕ) → Frame set (finish_partition frozen set p)
  unfolding finish_partition
  partition-Frame frozen set p =
      let flushed = flush_writer set p in
      let ready = rewind_partition frozen flushed p in
      Frame-trans set flushed (free_writer ready p) (flush_writer-Frame set p) (
        Frame-trans flushed ready (free_writer ready p) (rewind-Frame frozen flushed p)
          (free_writer-Frame ready p))

  -- The loop at partition `k`: the partitions before it are sealed, the others hold their logs.
  record Progress (frozen : Bool) (set : SpillSet Tape) (k : ℕ) (log : ℕ → List SpillRow)
      : Type 0 where
    done : (q : ℕ) → q < k → Sealed frozen set q (log q)
    todo : (q : ℕ) → k ≤ q → LogsAt set q (log q)
    slots : Slots set

  next-Progress :
      (frozen : Bool) (set : SpillSet Tape) (k : ℕ) (log : ℕ → List SpillRow)
      → k < set.npartitions
      → Progress frozen set k log
      → Progress frozen (finish_partition frozen set k) (k + 1) log
  next-Progress frozen set k log small h = record {
    done = λ q a. elim (Bool-cases (q == k)) [
      | inl same ↦
          let here : q ≡ k = (==_iff q k).0 same in
          subst (λ j. Sealed frozen (finish_partition frozen set k) j (log j)) (sym here)
            (partition_self frozen set k (log k) (h.todo k (omega arith)))
      | inr other ↦
          let u = partition_other frozen set k q other in
          let old = h.done q (ground (arith, a, other)) in
          (
            same-Readable frozen q set (finish_partition frozen set k) (log q) u.columns u.same_tape
                u.same_rows (old.0),
            u.same_writer ∙ old.1,
          )
    ];
    todo = λ q a.
        Untouched-Logs q set (finish_partition frozen set k) (log q)
          (partition_other frozen set k q (ground (arith, a))) (h.todo q (omega arith));
    slots = partition-Slots frozen set k small h.slots;
  }

  loop-Progress :
      (n k : ℕ) (frozen : Bool) (set : SpillSet Tape) (log : ℕ → List SpillRow)
      → k + n ≤ set.npartitions
      → Progress frozen set k log
      → Progress frozen (finish_loop n k frozen set) (k + n) log
        × Frame set (finish_loop n k frozen set)
  unfolding finish_loop
  loop-Progress zero k frozen set log e h =
      let z : k + 0 ≡ k = omega arith in (rw z h, Frame-refl set)
  loop-Progress (suc n) k frozen set log e h =
      let z : k + suc n ≡ k + 1 + n = omega arith in
      let frame = partition-Frame frozen set k in
      let (progress, rest) =
        loop-Progress n (k + 1) frozen (finish_partition frozen set k) log
          (omega (arith, frame.partitions)) (next-Progress frozen set k log (omega arith) h) in
      (
        rw z progress,
        Frame-trans set (finish_partition frozen set k)
            (finish_loop n (k + 1) frozen (finish_partition frozen set k)) frame rest,
      )

  -- The set after pg_batch_spill_finish.
  pub record IsFinished (frozen : Bool) (set : SpillSet Tape) (log : ℕ → List SpillRow)
      : Type 0 where
    pub sealed : (p : ℕ) → p < set.npartitions → Readable frozen set p (log p)
    pub freed : (p : ℕ) → p < set.npartitions → set.writers p ≡ none
    pub no_writers : set.active_writers ≡ 0
    pub flagged : set.finished ≡ true
    pub mode : set.frozen ≡ frozen

  -- Finishing a set that is not finished succeeds: no block is left in memory, and the tape of every
  -- partition that has rows is rewound, or frozen, with all rows of the partition's log on it.
  pub finish-IsFinished :
      (set : SpillSet Tape) (log : ℕ → List SpillRow) (frozen : Bool)
      → set.finished ≡ false
      → IsHealthy set log
      → (done : SpillSet Tape) × (finish set frozen ≡ ok done)
        × IsFinished frozen done log
        × (done.npartitions ≡ set.npartitions)
        × (done.ncolumns ≡ set.ncolumns)
  unfolding finish
  finish-IsFinished set log frozen open_flag h =
      let last = finish_loop set.npartitions 0 frozen set in
      let (progress, frame) =
        loop-Progress set.npartitions 0 frozen set log (omega arith) (record {
          done = λ q a. absurd (omega arith);
          todo = λ q a. h.logs q;
          slots = h.slots;
        }) in
      let z : 0 + set.npartitions ≡ set.npartitions = omega arith in
      let none_left : count_writers last.npartitions last.writers ≡ 0 =
        count_none last.npartitions last.writers
          (λ q a. (progress.done q (omega (arith, a, frame.partitions))).1) in
      (
        record last { finished = true; frozen = frozen },
        rw open_flag,
        record {
          sealed = λ q a.
              same-Readable frozen q last (record last { finished = true; frozen = frozen }) (log q)
                refl refl refl ((progress.done q (omega (arith, a, frame.partitions))).0);
          freed = λ q a. (progress.done q (omega (arith, a, frame.partitions))).1;
          no_writers = progress.slots.active ∙ none_left;
          flagged = refl;
          mode = refl;
        },
        frame.partitions,
        frame.columns,
      )
