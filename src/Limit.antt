-- ===== src/Limit.antt =====
-- examples/limit_node/executor.c: LIMIT and OFFSET over a stream of batches.
-- int64 amounts are numbers once they have passed the test for a negative value. The flag that
-- pg_batch_unary_stop sets is the field `stopped`; the tuple bound given to the child is `bound`.
pub mod Window
pub mod Trim
pub mod Amounts
pub mod Stream
use pg_batch.Prelude.{
  ℕ, zero, suc, ◌+◌, ◌-◌, ◌^◌, Bool, true, false, not, ◌&&◌, ◌||◌, List, [], ◌∷◌, Option, none,
  some, ltb, ◌==◌, if◌then◌else◌,
}
use pg_batch.Prelude.Int.{ℤ, pos, negsuc}
use pg_batch.Prelude.Result.{Result, ok, err, ◌>>=◌}
use pg_batch.Postgres.{PgBitutils}
use pg_batch.Batch.Selection.{Selection, next, clear}

pub record LimitState : Type 0 where
  pub offset_remaining : ℕ
  pub count_remaining : ℕ
  pub no_count : Bool
  pub stopped : Bool
  pub limits_ready : Bool
  pub bound : Option ℕ

pub data LimitError : Type 0 where
  negative_offset negative_limit : LimitError

-- What becomes of one selected row: kept, or cleared; and the counters after it.
pub take_row : LimitState → LimitState × Bool
take_row st =
    if ltb 0 st.offset_remaining
    then (record st { offset_remaining = st.offset_remaining - 1 }, false)
    else if not st.no_count && st.count_remaining == 0
    then (st, false)
    else if not st.no_count
    then (record st { count_remaining = st.count_remaining - 1 }, true)
    else (st, true)

-- `if (!no_count && count_remaining == 0) pg_batch_unary_stop(unary)`
pub stop_if_done : LimitState → LimitState
stop_if_done st = record st { stopped = st.stopped || (not st.no_count && st.count_remaining == 0) }

-- The state, the batch's selection, and the number of rows that were kept.
pub record Trimmed : Type 0 where
  pub state : LimitState
  pub selection : Selection
  pub remaining : ℕ

module _ ⦃pg : PgBitutils⦄ where
  -- The loop; each round passes a row, so `nrows` rounds are enough.
  pub trim_loop : ℕ → Option ℕ → Trimmed → Trimmed
  trim_loop zero row t = t
  trim_loop (suc fuel) row t = elim (next t.selection row) [
    | none ↦ t
    | some r ↦
        let (st, keep) = take_row t.state in
        trim_loop fuel (some r) (record {
          state = st;
          selection = if keep then t.selection else clear t.selection r;
          remaining = if keep then t.remaining + 1 else t.remaining;
        })
  ]

  pub trim_batch : LimitState → Selection → Trimmed
  trim_batch st s =
      let t = trim_loop s.nrows none (record { state = st; selection = s; remaining = 0 }) in
      record t { state = stop_if_done t.state }

-- DatumGetInt64 after the test `isnull ? 0 : …`, and the report of a negative value.
pub amount : LimitError → Option ℤ → Result LimitError ℕ
amount e none = ok 0
amount e (some (pos n)) = ok n
amount e (some (negsuc n)) = err e

-- An amount is an expression that may be absent, and its value may be null.
abbrev pub value_of : Option (Option ℤ) → Option ℤ
value_of none = none
value_of (some v) = v

set_limits : Option ℤ → Option ℤ → LimitState → Result LimitError LimitState
set_limits offset count st = amount negative_offset offset >>= λ o.
    amount negative_limit count >>= λ c.
    let no_count : Bool = elim count [ none ↦ true | some v ↦ false ] in
    ok
      (record (stop_if_done
        (record st { offset_remaining = o; count_remaining = c; no_count = no_count })) {
          limits_ready = true;
          bound = if no_count || ltb (2 ^ 63 - 1 - o) c then none else some (o + c);
        })

pub compute_limits :
    Option (Option ℤ) → Option (Option ℤ) → LimitState → Result LimitError LimitState
unfolding amount stop_if_done set_limits
compute_limits offset count st = set_limits (value_of offset) (value_of count) st

-- limit_rescan; pg_batch_unary_rescan clears the stop flag.
pub rescan : LimitState → LimitState
rescan st = record st { stopped = false; limits_ready = false }
