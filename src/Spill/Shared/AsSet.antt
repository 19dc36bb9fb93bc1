-- ===== src/Spill/Shared/AsSet.antt =====
-- spill/spill.c: the blocks and the files of a participant, step for step those of a spill set.
use pg_batch.Prelude.{
  ℕ, zero, suc, ◌+◌, ◌%◌, ◌≡◌, refl, ap, ◌∙◌, inl, inr, Bool, true, false, Option, none, some, ◌==◌,
  if◌then◌else◌, Bool-cases,
}
use mathlib.Core.Path.{fun_ext}
use pg_batch.Spill.Tape.{LogicalTape}
use pg_batch.Spill.Block.{SpillWriter, fresh_writer, update, write_block, reset_block, block_bytes}
use pg_batch.Spill.Partitions.{
  SpillSet, add64, free_block, free_writer, find_victim, flush_block, flush_writer, evict_victim,
  evict, start_block, get_writer,
}
use pg_batch.Spill.Shared.{
  SharedWriter, shared_free_block, shared_free_writer, shared_find_victim, file_or_new,
  shared_flush_block, shared_flush_writer, shared_evict_victim, shared_start_block,
  shared_get_writer,
}

module _ {File : Type 0} ⦃tape : LogicalTape File⦄ where
  -- The spill set that a writer is: its files as tapes, empty where there is none.
  unfoldable pub local : SharedWriter File → SpillSet File
  local w = record {
    ncolumns = w.ncolumns;
    npartitions = w.partitions;
    tapes = λ p. file_or_new (w.files p);
    writers = w.writers;
    partition_rows = w.partition_rows;
    active_writers = w.active_writers;
    max_writers = w.max_writers;
    eviction_cursor = w.eviction_cursor;
    finished = w.finished;
    frozen = false;
    stats = w.stats;
  }

  tapes-update :
      (files : ℕ → Option File) (q : ℕ) (file : File)
      → (λ p. file_or_new (update files q (some file) p))
        ≡ update (λ p. file_or_new (files p)) q file
  tapes-update files q file =
      fun_ext (λ p. elim (Bool-cases (p == q)) [ inl e ↦ rw e | inr e ↦ rw e ])

  local-flush :
      (w : SharedWriter File) (q : ℕ) (o : Option SpillWriter)
      → local (shared_flush_block w q o) ≡ flush_block (local w) q o
  unfolding local shared_flush_block flush_block
  local-flush w q none = refl
  local-flush w q (some block) = elim (Bool-cases (block.nrows == 0)) [
    | inl z ↦ rw z
    | inr z ↦ rw z (
        ap
          (λ t.
            let set : SpillSet File = record {
              ncolumns = w.ncolumns;
              npartitions = w.partitions;
              tapes = t;
              writers = update w.writers q (some (reset_block w.ncolumns block));
              partition_rows = w.partition_rows;
              active_writers = w.active_writers;
              max_writers = w.max_writers;
              eviction_cursor = w.eviction_cursor;
              finished = w.finished;
              frozen = false;
              stats = record w.stats {
                blocks_written = add64 w.stats.blocks_written 1;
                bytes_written = add64 w.stats.bytes_written (block_bytes w.ncolumns block.nrows);
              };
            } in
            set)
          (tapes-update w.files q (write_block w.ncolumns block (file_or_new (w.files q)))))
  ]

  pub local-flush_writer :
      (w : SharedWriter File) (q : ℕ) → local (shared_flush_writer w q) ≡ flush_writer (local w) q
  unfolding shared_flush_writer flush_writer local
  local-flush_writer w q = local-flush w q (w.writers q)

  local-free :
      (w : SharedWriter File) (q : ℕ) (o : Option SpillWriter)
      → local (shared_free_block w q o) ≡ free_block (local w) q o
  unfolding local shared_free_block free_block
  local-free w q none = refl
  local-free w q (some block) = refl

  pub local-free_writer :
      (w : SharedWriter File) (q : ℕ) → local (shared_free_writer w q) ≡ free_writer (local w) q
  unfolding shared_free_writer free_writer local
  local-free_writer w q = local-free w q (w.writers q)

  local-find_victim :
      (n offset : ℕ) (w : SharedWriter File)
      → shared_find_victim n offset w ≡ find_victim n offset (local w)
  unfolding shared_find_victim find_victim local
  local-find_victim zero offset w = refl
  local-find_victim (suc n) offset w =
      by_writer (w.writers ((w.eviction_cursor + offset) % w.partitions))
        (local-find_victim n (offset + 1) w)
    where
      by_writer :
          (o : Option SpillWriter)
          → shared_find_victim n (offset + 1) w ≡ find_victim n (offset + 1) (local w)
          → ◌≡◌ {A = Option ℕ}
              (elim o [
                | none ↦ shared_find_victim n (offset + 1) w
                | some block ↦ some ((w.eviction_cursor + offset) % w.partitions)
              ])
              (elim o [
                | none ↦ find_victim n (offset + 1) (local w)
                | some block ↦ some ((w.eviction_cursor + offset) % w.partitions)
              ])
      by_writer none e = e
      by_writer (some block) e = refl

  local-evict_victim :
      (w : SharedWriter File) (o : Option ℕ)
      → local (shared_evict_victim w o) ≡ evict_victim (local w) o
  unfolding shared_evict_victim evict_victim
  local-evict_victim w none = refl
  local-evict_victim w (some v) =
      moved_cursor (shared_free_writer (shared_flush_writer w v) v) ((v + 1) % w.partitions)
      ∙ ap (λ (s : SpillSet File). record s { eviction_cursor = (v + 1) % w.partitions })
          (local-free_writer (shared_flush_writer w v) v
            ∙ ap (λ s. free_writer s v) (local-flush_writer w v))
      ∙ unfold local in refl
    where
      moved_cursor :
          (w : SharedWriter File) (c : ℕ)
          → local (record w { eviction_cursor = c }) ≡ record (local w) { eviction_cursor = c }
      moved_cursor w c = unfold local in refl

  local-started :
      (w : SharedWriter File) (q : ℕ)
      → local (record w {
        writers = update w.writers q (some fresh_writer);
        active_writers = w.active_writers + 1;
      })
        ≡ record (local w) {
          writers = update (local w).writers q (some fresh_writer);
          active_writers = (local w).active_writers + 1;
        }
  unfolding local
  local-started w q = refl

  local-evict :
      (w : SharedWriter File)
      → local (shared_evict_victim w (shared_find_victim w.partitions 0 w)) ≡ evict (local w)
  unfolding evict
  local-evict w =
      local-evict_victim w (shared_find_victim w.partitions 0 w)
      ∙ ap (evict_victim (local w)) (local-find_victim w.partitions 0 w)
      ∙ unfold local in refl

  abbrev begin_block : SpillSet File → ℕ → SpillSet File
  begin_block s q = record s {
    writers = update s.writers q (some fresh_writer);
    active_writers = s.active_writers + 1;
  }

  local-start_block :
      (w : SharedWriter File) (q : ℕ) (o : Option SpillWriter)
      → local (shared_start_block w q o) ≡ start_block (local w) q o
  unfolding shared_start_block start_block
  local-start_block w q (some block) = refl
  local-start_block w q none =
      let evicted = shared_evict_victim w (shared_find_victim w.partitions 0 w) in
      let full = w.active_writers == w.max_writers in
      local-started (if full then evicted else w) q
      ∙ ap (λ s. begin_block s q)
          (by_test full evicted ∙ ap (λ s. if full then s else local w) (local-evict w))
      ∙ unfold local in refl
    where
      by_test :
          (b : Bool) (evicted : SharedWriter File)
          → local (if b then evicted else w) ≡ (if b then local evicted else local w)
      by_test true evicted = refl
      by_test false evicted = refl

  pub local-get_writer :
      (w : SharedWriter File) (q : ℕ) → local (shared_get_writer w q) ≡ get_writer (local w) q
  unfolding shared_get_writer get_writer local
  local-get_writer w q = local-start_block w q (w.writers q)
