-- ===== src/Runtime/Unary.antt =====
-- runtime/unary.c: the executor of a node with one child, in batch mode and in row mode. The input is
-- the list of the batches that the child has still to give. What a node does with a batch is a
-- function of its private data and the selection. Slots, the projection of a row and the
-- instrumentation are not modelled: a row is its batch's number and its own.
pub mod Fetch
pub mod Steps
pub mod Drained
pub mod Batches
use pg_batch.Prelude.{
  ℕ, zero, suc, ◌+◌, ◌%◌, ◌^◌, Bool, true, false, ◌||◌, List, [], ◌∷◌, Option, none, some, length,
  ◌==◌, if◌then◌else◌,
}
use pg_batch.Postgres.{PgBitutils}
use pg_batch.Batch.Selection.{Selection, count, next}
use pg_batch.Limit.Stream.{Batch}

-- What `process` leaves: the private data, the selection, its result, and whether it called
-- pg_batch_unary_stop.
pub record Outcome (Data : Type 0) : Type 0 where
  pub private_data : Data
  pub selection : Selection
  pub rows : ℕ
  pub stops : Bool

pub record UnaryStats : Type 0 where
  pub input_batches : ℕ
  pub input_rows : ℕ
  pub output_rows : ℕ

pub record Unary (Data : Type 0) : Type 0 where
  pub input : List Batch
  pub private_data : Data
  pub active_batch : Option Batch
  pub next_row : Option ℕ
  pub stopped : Bool
  pub stats : UnaryStats

abbrev pub no_unary_stats : UnaryStats
no_unary_stats = record { input_batches = 0; input_rows = 0; output_rows = 0 }

-- The child starts over with `input`.
pub rescan : {Data : Type 0} → Unary Data → List Batch → Unary Data
rescan u input = record u {
  input = input;
  active_batch = none;
  next_row = none;
  stopped = false;
  stats = no_unary_stats;
}

-- What a round of the loop in row mode comes to.
pub data RowRound (Data : Type 0) : Type 0 where
  ended : Unary Data → RowRound Data
  next_round : Unary Data → RowRound Data
  returned : (ℕ × ℕ) → Unary Data → RowRound Data

-- The row that is returned, if any, and the executor; `none` where the rounds run out.
abbrev pub RowResult : Type 0 → Type 0
RowResult Data = Option (Option (ℕ × ℕ) × Unary Data)

module _ {Data : Type 0} ⦃pg : PgBitutils⦄ where
  -- The executor with the batch that fetch_batch found.
  pub activated : Unary Data → Batch → Outcome Data → Unary Data
  activated u b o = record u {
    active_batch = some (record b { selection = o.selection });
    next_row = next o.selection none;
    stats = record u.stats { output_rows = (u.stats.output_rows + o.rows) % 2 ^ 64 };
  }

  -- A row of the active batch, or its end.
  pub row_step : Unary Data → Option Batch → Option ℕ → RowRound Data
  row_step u none row = ended u
  row_step u (some b) none = next_round (record u { active_batch = none })
  row_step u (some b) (some row) =
      returned (b.number, row) (record u { next_row = next b.selection (some row) })

module _ {Data : Type 0} ⦃pg : PgBitutils⦄
    (process : Option (Data → Selection → Outcome Data)) where
  -- unary->process, which may be NULL
  abbrev pub run_process : Data → Selection → Outcome Data
  run_process data_before s = elim process [
    | none ↦ record { private_data = data_before; selection = s; rows = count s; stops = false }
    | some run ↦ run data_before s
  ]

  -- The executor after a batch was read and processed.
  pub processed : Unary Data → Batch → List Batch → Unary Data
  processed u b bs =
      let o = run_process u.private_data b.selection in
      record u {
        input = bs;
        private_data = o.private_data;
        stopped = u.stopped || o.stops;
        stats = record u.stats {
          input_batches = (u.stats.input_batches + 1) % 2 ^ 64;
          input_rows = (u.stats.input_rows + count b.selection) % 2 ^ 64;
        };
      }

  pub fetch_loop : List Batch → Unary Data → Bool × Unary Data
  fetch_loop [] u = (false, u)
  fetch_loop (b ∷ bs) u =
      let o = run_process u.private_data b.selection in
      let rest = fetch_loop bs (processed u b bs) in
      if u.stopped
      then (false, u)
      else if o.rows == 0
      then rest
      else (true, activated (processed u b bs) b o)

  pub fetch_batch : Unary Data → Bool × Unary Data
  unfolding fetch_loop
  fetch_batch u = fetch_loop u.input u

  pub exec_batch : Unary Data → Option Batch × Unary Data
  unfolding fetch_batch
  exec_batch u =
      let (found, v) = fetch_batch (record u { active_batch = none }) in
      (if found then v.active_batch else none, v)

  pub row_round : Unary Data → Option Batch → RowRound Data
  row_round u (some b) = row_step u (some b) u.next_row
  row_round u none =
      let (found, v) = fetch_batch u in
      if found then row_step v v.active_batch v.next_row else ended v

  pub row_loop : ℕ → Unary Data → RowResult Data
  row_loop zero u = none
  row_loop (suc fuel) u = elim (row_round u u.active_batch) [
    | ended v ↦ some (none, v)
    | next_round v ↦ row_loop fuel v
    | returned row v ↦ some (some row, v)
  ]

  -- A round without a result ends a batch, and the next reads one that has rows, so that two rounds
  -- are enough.
  pub exec_row : Unary Data → RowResult Data
  unfolding row_loop
  exec_row u = row_loop (length u.input + 2) u
