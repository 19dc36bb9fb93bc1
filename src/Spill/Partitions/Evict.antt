-- ===== src/Spill/Partitions/Evict.antt =====
-- spill/spill.c: get_writer gives the partition a block, within the bound, and loses no row.
use pg_batch.Prelude.{
  ℕ, ◌+◌, ◌-◌, ◌<◌, ◌≡◌, refl, sym, ap, ◌∙◌, inl, inr, true, List, Option, none, some, arith, ◌==◌,
  ==_iff, Bool-cases,
}
use pg_batch.Spill.Tape.{LogicalTape}
use pg_batch.Spill.Block.{SpillWriter, SpillRow, fresh_writer, update}
use pg_batch.Spill.Partitions.{
  SpillSet, free_writer, flush_writer, evict_victim, evict, start_block, get_writer,
}
use pg_batch.Spill.Partitions.Log.{fresh_Logs}
use pg_batch.Spill.Partitions.Slots.{Slots, count-update, victim_found}
use pg_batch.Spill.Partitions.Steps.{
  Frame, Frame-refl, Frame-trans, IsDrained, Represents, flush-Frame, flush-Represents,
  flush-IsDrained, flush-Slots, flush-writers, flush-stays, flush-active, free-Frame,
  free-Represents, free-Slots, free-writers, free-active,
}

module _ {Tape : Type 0} ⦃tape : LogicalTape Tape⦄ where
  -- A set whose partitions hold their logs, within the bound.
  pub record IsHealthy (set : SpillSet Tape) (log : ℕ → List SpillRow) : Type 0 where
    pub logs : Represents set log
    pub slots : Slots set

  pub flush_writer-IsHealthy :
      (set : SpillSet Tape) (q : ℕ) (log : ℕ → List SpillRow)
      → q < set.npartitions
      → IsHealthy set log
      → IsHealthy (flush_writer set q) log
  unfolding flush_writer
  flush_writer-IsHealthy set q log small h = record {
    logs = flush-Represents set q log (set.writers q) refl h.logs;
    slots = flush-Slots set q (set.writers q) refl small h.slots;
  }

  pub free_writer-IsHealthy :
      (set : SpillSet Tape) (q : ℕ) (log : ℕ → List SpillRow)
      → q < set.npartitions
      → IsDrained set q
      → IsHealthy set log
      → IsHealthy (free_writer set q) log
  unfolding free_writer
  free_writer-IsHealthy set q log small drained h = record {
    logs = free-Represents set q log (set.writers q) refl drained h.logs;
    slots = free-Slots set q (set.writers q) refl small h.slots;
  }

  pub flush_writer-Frame : (set : SpillSet Tape) (q : ℕ) → Frame set (flush_writer set q)
  unfolding flush_writer
  flush_writer-Frame set q = flush-Frame set q (set.writers q)

  pub free_writer-Frame : (set : SpillSet Tape) (q : ℕ) → Frame set (free_writer set q)
  unfolding free_writer
  free_writer-Frame set q = free-Frame set q (set.writers q)

  pub flush_writer-IsDrained : (set : SpillSet Tape) (q : ℕ) → IsDrained (flush_writer set q) q
  unfolding flush_writer
  flush_writer-IsDrained set q = flush-IsDrained set q (set.writers q) refl

  -- What an eviction gives to a partition `p` that has no block.
  record Evicted (set roomy : SpillSet Tape) (log : ℕ → List SpillRow) (p : ℕ) : Type 0 where
    healthy : IsHealthy roomy log
    frame : Frame set roomy
    room : roomy.active_writers < roomy.max_writers
    still_free : roomy.writers p ≡ none

  abbrev written_out : SpillSet Tape → ℕ → SpillSet Tape
  written_out set v = free_writer (flush_writer set v) v

  module _ (set : SpillSet Tape) (log : ℕ → List SpillRow) (p v : ℕ) (w : SpillWriter)
      (h : IsHealthy set log) (small : v < set.npartitions) (taken : set.writers v ≡ some w)
      (free : set.writers p ≡ none) where
    flushed_small : v < (flush_writer set v).npartitions
    flushed_small = rw ((flush_writer-Frame set v).partitions) small

    written_out-IsHealthy : IsHealthy (written_out set v) log
    written_out-IsHealthy =
        free_writer-IsHealthy (flush_writer set v) v log flushed_small
          (flush_writer-IsDrained set v) (flush_writer-IsHealthy set v log small h)

    written_out-Frame : Frame set (written_out set v)
    written_out-Frame =
        Frame-trans set (flush_writer set v) (written_out set v) (flush_writer-Frame set v)
          (free_writer-Frame (flush_writer set v) v)

    written_out-free : (written_out set v).writers p ≡ none
    unfolding free_writer flush_writer
    written_out-free =
        (free-writers (flush_writer set v) v ((flush_writer set v).writers v) p refl).1
          (flush-writers set v (set.writers v) p refl free)

    written_out-active : (written_out set v).active_writers ≡ set.active_writers - 1
    unfolding free_writer flush_writer
    written_out-active =
        let (u, stays) = flush-stays set v (set.writers v) w refl taken in
        rw stays (
          free-active (flush_writer set v) v u
          ∙ ap (λ n. n - 1) (flush-active set v (set.writers v)))

  evict-Evicted :
      (set : SpillSet Tape) (log : ℕ → List SpillRow) (p : ℕ)
      → IsHealthy set log
      → set.writers p ≡ none
      → set.active_writers ≡ set.max_writers
      → Evicted set (evict set) log p
  unfolding evict evict_victim
  evict-Evicted set log p h free full =
      let busy : 0 < set.active_writers = omega (arith, h.slots.one_writer, full) in
      let (v, found, victim) = victim_found set h.slots busy in
      let (w, taken) = victim.block in rw found (evicted v w victim.inside taken)
    where
      evicted :
          (v : ℕ) (w : SpillWriter)
          → v < set.npartitions
          → set.writers v ≡ some w
          → Evicted set (evict_victim set (some v)) log p
      evicted v w small taken =
          let out = written_out-IsHealthy set log p v w h small taken free in
          let frame = written_out-Frame set log p v w h small taken free in
          let active = written_out-active set log p v w h small taken free in
          let none_left = written_out-free set log p v w h small taken free in
          record {
            healthy = record {
              logs = out.logs;
              slots = record {
                active = out.slots.active;
                bounded = out.slots.bounded;
                one_writer = out.slots.one_writer;
                cursor = rw (frame.partitions) (grind (arith, small));
              };
            };
            frame = record {
              columns = frame.columns;
              partitions = frame.partitions;
              limit = frame.limit;
              finish_flag = frame.finish_flag;
            };
            room = omega (arith, active, frame.limit, full, h.slots.one_writer);
            still_free = none_left;
          }

  -- What get_writer gives: the partition has a block, every log is kept and the bound holds.
  pub record IsReady (set ready : SpillSet Tape) (log : ℕ → List SpillRow) (p : ℕ) : Type 0 where
    pub healthy : IsHealthy ready log
    pub frame : Frame set ready
    pub writer : SpillWriter
    pub present : ready.writers p ≡ some writer

  started :
      (set roomy : SpillSet Tape) (log : ℕ → List SpillRow) (p : ℕ)
      → p < set.npartitions
      → Evicted set roomy log p
      → IsReady set
          (record roomy {
            writers = update roomy.writers p (some fresh_writer);
            active_writers = roomy.active_writers + 1;
          })
          log
          p
  started set roomy log p small e =
      let self : (p == p) ≡ true = ground arith in
      let inside : p < roomy.npartitions = omega (arith, small, e.frame.partitions) in
      let count =
        rw e.still_free at
          (count-update roomy.npartitions p roomy.writers (some fresh_writer) inside) in
      record {
        healthy = record {
          logs = λ q. elim (Bool-cases (q == p)) [
            | inr other ↦ rw other (e.healthy.logs q)
            | inl same ↦
                let here : q ≡ p = (==_iff q p).0 same in
                rw (same, here)
                  (fresh_Logs roomy.ncolumns (tape.contents (roomy.tapes p))
                    (roomy.partition_rows p) (log p) (rw e.still_free at (e.healthy.logs p)))
          ];
          slots = record {
            active = omega (arith, e.healthy.slots.active, count);
            bounded = omega (arith, e.room);
            one_writer = e.healthy.slots.one_writer;
            cursor = e.healthy.slots.cursor;
          };
        };
        frame = record {
          columns = e.frame.columns;
          partitions = e.frame.partitions;
          limit = e.frame.limit;
          finish_flag = e.frame.finish_flag;
        };
        writer = fresh_writer;
        present = rw self;
      }

  start-IsReady :
      (set : SpillSet Tape) (log : ℕ → List SpillRow) (p : ℕ) (o : Option SpillWriter)
      → o ≡ set.writers p
      → p < set.npartitions
      → IsHealthy set log
      → IsReady set (start_block set p o) log p
  unfolding start_block
  start-IsReady set log p (some w) e small h = record {
    healthy = h;
    frame = Frame-refl set;
    writer = w;
    present = sym e;
  }
  start-IsReady set log p none e small h =
      elim (Bool-cases (set.active_writers == set.max_writers)) [
        | inl full ↦ rw full (
            started set (evict set) log p small
              (evict-Evicted set log p h (sym e) ((==_iff _ _).0 full)))
        | inr room ↦ rw room (
            started set set log p small (record {
              healthy = h;
              frame = Frame-refl set;
              room = ground (arith, room, h.slots.bounded);
              still_free = sym e;
            }))
      ]

  -- In a set within its bound whose partitions hold their logs, get_writer gives a partition in range
  -- a block: the bound still holds, and no partition has lost a row, whichever block was evicted.
  pub get_writer_lem :
      (set : SpillSet Tape) (log : ℕ → List SpillRow) (p : ℕ)
      → p < set.npartitions
      → IsHealthy set log
      → IsReady set (get_writer set p) log p
  unfolding get_writer
  get_writer_lem set log p small h = start-IsReady set log p (set.writers p) refl small h
