-- ===== src/Spill/Partitions/Write/Append.antt =====
-- spill/spill.c: the loops over the rows append to the log of their partition and to no other.
use pg_batch.Prelude.{
  ℕ, ◌<◌, ◌≡◌, refl, sym, ◌∙◌, inl, inr, Bool, true, false, List, [], ◌∷◌, ◌++◌, map, some, arith,
  subst, foldl, ◌==◌, ==_iff, if◌then◌else◌, Bool-cases,
}
use mathlib.Core.List.{append-nil, append_assoc}
use pg_batch.Prelude.Int.{ℤ}
use pg_batch.Spill.Bytes.{IsUint32}
use pg_batch.Spill.Tape.{LogicalTape}
use pg_batch.Spill.Block.{SpillWriter, SpillRow, store_row, update, reset_block}
use pg_batch.Spill.Block.Rows.{AreInt32, new_row}
use pg_batch.Spill.Block.Data.{contents-write_block}
use pg_batch.Spill.Partitions.{SpillSet, flush_writer, flush_block}
use pg_batch.Spill.Partitions.Write.{put_row, add_row}
use pg_batch.Spill.Partitions.Log.{Logs, store_Logs, store_flush_Logs}
use pg_batch.Spill.Partitions.Slots.{count-update}
use pg_batch.Spill.Partitions.Steps.{Frame, Frame-refl, Frame-trans, Represents}
use pg_batch.Spill.Partitions.Evict.{IsHealthy, IsReady}

-- The logs after rows were written to a partition.
abbrev pub append_to : (ℕ → List SpillRow) → ℕ → List SpillRow → ℕ → List SpillRow
append_to log p rows q = if q == p then log q ++ rows else log q

pub append_to-append :
    (log : ℕ → List SpillRow) (p : ℕ) (xs ys : List SpillRow) (q : ℕ)
    → append_to (append_to log p xs) p ys q ≡ append_to log p (xs ++ ys) q
append_to-append log p xs ys q = elim (Bool-cases (q == p)) [
  | inl e ↦ rw e (append_assoc (log q) xs ys)
  | inr e ↦ rw e
]

pub append_to-nil : (log : ℕ → List SpillRow) (p q : ℕ) → append_to log p [] q ≡ log q
append_to-nil log p q = elim (Bool-cases (q == p)) [
  | inl e ↦ rw e (append-nil (log q))
  | inr e ↦ rw e
]

-- The row of each number, as the loops write it.
abbrev pub rows_for : ℕ → (ℕ → ℕ) → (ℕ → ℕ → ℤ × Bool) → List ℕ → List SpillRow
rows_for ncolumns hash cell = map (λ i. new_row ncolumns (hash i) (cell i))

module _ {Tape : Type 0} ⦃tape : LogicalTape Tape⦄ where
  pub Represents-congr :
      (set : SpillSet Tape) (log other : ℕ → List SpillRow)
      → ((q : ℕ) → log q ≡ other q)
      → Represents set log
      → Represents set other
  Represents-congr set log other e h q =
      subst (Logs set.ncolumns (tape.contents (set.tapes q)) (set.writers q) (set.partition_rows q))
        (e q) (h q)

  module _ (set : SpillSet Tape) (log : ℕ → List SpillRow) (p hash : ℕ) (cell : ℕ → ℤ × Bool)
      (hash32 : IsUint32 hash) (values32 : AreInt32 cell) where
    abbrev row : SpillRow
    row = new_row set.ncolumns hash cell

    put_row-IsReady :
        (w : SpillWriter)
        → set.writers p ≡ some w
        → p < set.npartitions
        → IsHealthy set log
        → IsReady set (put_row set p hash cell (some w)) (append_to log p (row ∷ [])) p
    unfolding put_row flush_writer flush_block
    put_row-IsReady w present small h =
        let stored = store_row set.ncolumns hash cell w in
        let self : (p == p) ≡ true = ground arith in
        let here = rw present at (h.logs p) in
        let count =
          rw present at (count-update set.npartitions p set.writers (some stored) small) in
        elim (Bool-cases (stored.nrows == 64)) [
          | inr part ↦ rw part (record {
            healthy = record {
              logs = λ q. elim (Bool-cases (q == p)) [
                | inr other ↦ rw other (h.logs q)
                | inl same ↦
                    let at_p : q ≡ p = (==_iff q p).0 same in
                    rw (same, at_p)
                      (store_Logs set.ncolumns hash cell w (tape.contents (set.tapes p))
                        (set.partition_rows p) (log p) here hash32 values32
                        (λ e. ground (arith, e, part)))
              ];
              slots = record {
                active = omega (arith, h.slots.active, count);
                bounded = h.slots.bounded;
                one_writer = h.slots.one_writer;
                cursor = h.slots.cursor;
              };
            };
            frame = record { columns = refl; partitions = refl; limit = refl; finish_flag = refl };
            writer = stored;
            present = rw self;
          })
          | inl full ↦
              let again = rw self at (
                count-update set.npartitions p (update set.writers p (some stored))
                  (some (reset_block set.ncolumns stored)) small) in
              let n64 : stored.nrows ≡ 64 = (==_iff _ _).0 full in
              let rows : (stored.nrows == 0) ≡ false = ground (arith, n64) in
              rw (full, self, rows)
                (record {
                  healthy = record {
                    logs = λ q. elim (Bool-cases (q == p)) [
                      | inr other ↦ rw other (h.logs q)
                      | inl same ↦
                          let at_p : q ≡ p = (==_iff q p).0 same in
                          rw (same, at_p, contents-write_block set.ncolumns stored (set.tapes p))
                            (store_flush_Logs set.ncolumns hash cell w (tape.contents (set.tapes p))
                              (set.partition_rows p) (log p) here hash32 values32 n64)
                    ];
                    slots = record {
                      active = omega (arith, h.slots.active, count, again);
                      bounded = h.slots.bounded;
                      one_writer = h.slots.one_writer;
                      cursor = h.slots.cursor;
                    };
                  };
                  frame = record {
                    columns = refl;
                    partitions = refl;
                    limit = refl;
                    finish_flag = refl;
                  };
                  writer = reset_block set.ncolumns stored;
                  present = rw self;
                })
        ]

    pub add_row-IsReady :
        (w : SpillWriter)
        → set.writers p ≡ some w
        → p < set.npartitions
        → IsHealthy set log
        → IsReady set (add_row set p hash cell) (append_to log p (row ∷ [])) p
    unfolding add_row
    add_row-IsReady w present small h = rw present (put_row-IsReady w present small h)

  -- Two stretches of rows.
  IsReady-trans :
      (a b c : SpillSet Tape) (log : ℕ → List SpillRow) (p : ℕ) (xs ys : List SpillRow)
      → Frame a b
      → IsReady b c (append_to (append_to log p xs) p ys) p
      → IsReady a c (append_to log p (xs ++ ys)) p
  IsReady-trans a b c log p xs ys f r = record {
    healthy = record {
      logs =
          Represents-congr c (append_to (append_to log p xs) p ys) (append_to log p (xs ++ ys))
            (append_to-append log p xs ys) r.healthy.logs;
      slots = r.healthy.slots;
    };
    frame = Frame-trans a b c f r.frame;
    writer = r.writer;
    present = r.present;
  }

  IsReady-nil :
      (a b : SpillSet Tape) (log : ℕ → List SpillRow) (p : ℕ)
      → IsReady a b log p
      → IsReady a b (append_to log p []) p
  IsReady-nil a b log p r = record {
    healthy = record {
      logs =
          Represents-congr b log (append_to log p []) (λ q. sym (append_to-nil log p q))
            r.healthy.logs;
      slots = r.healthy.slots;
    };
    frame = r.frame;
    writer = r.writer;
    present = r.present;
  }

  module _ (p : ℕ) (hash : ℕ → ℕ) (cell : ℕ → ℕ → ℤ × Bool) (hash32 : (i : ℕ) → IsUint32 (hash i))
      (values32 : (i : ℕ) → AreInt32 (cell i)) where
    step-IsReady :
        (n i : ℕ) (b : SpillSet Tape) (log : ℕ → List SpillRow) (w : SpillWriter)
        → b.ncolumns ≡ n
        → b.writers p ≡ some w
        → p < b.npartitions
        → IsHealthy b log
        → IsReady b
            (add_row b p (hash i) (cell i))
            (append_to log p (new_row n (hash i) (cell i) ∷ []))
            p
    step-IsReady n i b log w e present small h =
        subst
          (λ n.
            IsReady b (add_row b p (hash i) (cell i))
              (append_to log p (new_row n (hash i) (cell i) ∷ [])) p)
          e (add_row-IsReady b log p (hash i) (cell i) (hash32 i) (values32 i) w present small h)

    pub fold-IsReady :
        (n : ℕ) (rows : List ℕ) (a b : SpillSet Tape) (log : ℕ → List SpillRow)
        → b.ncolumns ≡ n
        → p < a.npartitions
        → IsReady a b log p
        → IsReady a
            (foldl (λ set i. add_row set p (hash i) (cell i)) b rows)
            (append_to log p (rows_for n hash cell rows))
            p
    unfolding foldl
    fold-IsReady n [] a b log e small r = IsReady-nil a b log p r
    fold-IsReady n (i ∷ rows) a b log e small r =
        let inside : p < b.npartitions = omega (arith, r.frame.partitions, small) in
        let next = step-IsReady n i b log r.writer e r.present inside r.healthy in
        let rest =
          fold-IsReady n rows (add_row b p (hash i) (cell i)) (add_row b p (hash i) (cell i))
            (append_to log p (new_row n (hash i) (cell i) ∷ [])) (next.frame.columns ∙ e)
            (omega (arith, next.frame.partitions, inside))
            (record {
              healthy = next.healthy;
              frame = Frame-refl (add_row b p (hash i) (cell i));
              writer = next.writer;
              present = next.present;
            }) in
        IsReady-trans a (add_row b p (hash i) (cell i))
          (foldl (λ set i. add_row set p (hash i) (cell i)) (add_row b p (hash i) (cell i)) rows)
          log p (new_row n (hash i) (cell i) ∷ []) (rows_for n hash cell rows)
          (Frame-trans a b (add_row b p (hash i) (cell i)) r.frame next.frame) rest
