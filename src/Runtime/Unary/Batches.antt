-- ===== src/Runtime/Unary/Batches.antt =====
-- runtime/unary.c: exec_batch gives the same rows as exec_row, batch by batch.
use pg_batch.Prelude.{
  ℕ, zero, suc, ◌<◌, ◌≡◌, sym, ap, ◌∙◌, true, false, List, [], ◌∷◌, ◌++◌, Option, none, some, arith,
  length,
}
use pg_batch.Postgres.{PgBitutils}
use pg_batch.Batch.Selection.{Selection}
use pg_batch.Limit.Stream.{Batch, batch_rows, all_rows, AllWellFormed}
use pg_batch.Runtime.Unary.{Unary, Outcome, fetch_batch, exec_batch}
use pg_batch.Runtime.Unary.Fetch.{
  IsExact, passed, left, Fetching, exhausted, fetched, fetch_loop-Fetching,
}
use pg_batch.Runtime.Unary.Drained.{take_rows, take_rows-passed}

module _ {Data : Type 0} ⦃pg : PgBitutils⦄
    (process : Option (Data → Selection → Outcome Data)) where
  -- A client that takes batches until there are none, for at most so many rounds.
  unfoldable pub take_batches : ℕ → Unary Data → List Batch
  take_batches zero u = []
  take_batches (suc fuel) u =
      let (o, v) = exec_batch process u in
      let rest = take_batches fuel v in elim o [ none ↦ [] | some b ↦ b ∷ rest ]

  batch_ended :
      (u v : Unary Data)
      → fetch_batch process (record u { active_batch = none }) ≡ (false, v)
      → exec_batch process u ≡ (none, v)
  unfolding exec_batch
  batch_ended u v e = rw (exec_batch, e)

  batch_found :
      (u v : Unary Data) (b : Batch)
      → fetch_batch process (record u { active_batch = none }) ≡ (true, v)
      → v.active_batch ≡ some b
      → exec_batch process u ≡ (some b, v)
  unfolding exec_batch
  batch_found u v b e active = rw (exec_batch, e) (ap (λ o. (o, v)) active)

  next_batch :
      (fuel : ℕ) (u v : Unary Data) (b : Batch)
      → exec_batch process u ≡ (some b, v)
      → take_batches (suc fuel) u ≡ b ∷ take_batches fuel v
  unfolding take_batches
  next_batch fuel u v b e =
      rw (take_batches, e) (ap (λ (r : Option Batch × Unary Data). b ∷ take_batches fuel (r.1)) e)

  no_batch :
      (fuel : ℕ) (u v : Unary Data)
      → exec_batch process u ≡ (none, v)
      → take_batches (suc fuel) u ≡ []
  unfolding take_batches
  no_batch fuel u v e = rw (take_batches, e)

  -- In batch mode an executor gives batches whose rows are those of the processed batches.
  pub all_rows-take_batches :
      (fuel : ℕ) (u : Unary Data)
      → IsExact process
      → AllWellFormed u.input
      → length u.input < fuel
      → all_rows (take_batches fuel u) ≡ passed process u.stopped u.private_data u.input
  unfolding fetch_batch
  all_rows-take_batches zero u exact well enough = elim enough [ ]
  all_rows-take_batches (suc fuel) u exact well enough =
      let start : Unary Data = record u { active_batch = none } in
      by_fetching (fetch_loop-Fetching process exact u.input start well)
        (λ v others less. all_rows-take_batches fuel v exact others (omega (arith, less, enough)))
    where
      by_fetching :
          Fetching process
            (fetch_batch process (record u { active_batch = none }))
            (length u.input)
            (left process u)
          → ((v : Unary Data)
              → AllWellFormed v.input
              → length v.input < length u.input
              → all_rows (take_batches fuel v) ≡ left process v)
          → all_rows (take_batches (suc fuel) u) ≡ left process u
      by_fetching (exhausted v e nil) rest =
          ap all_rows (no_batch fuel u v (batch_ended u v e)) ∙ sym nil
      by_fetching (fetched v b e active less) rest =
          ap all_rows (next_batch fuel u v b (batch_found u v b e active.active))
          ∙ ap (λ l. batch_rows b ++ l) (rest v active.others less)
          ∙ sym active.rows_left

  -- The rows that an executor gives one by one are those of the batches that it gives in batch mode,
  -- in the same order. The batches of the child are well formed, `process` keeps that and returns the
  -- number of the rows it leaves, and both clients have enough rounds: one more than there are rows,
  -- and one more than the child has batches.
  pub take_rows-take_batches :
      (fuel rounds : ℕ) (u : Unary Data)
      → IsExact process
      → u.active_batch ≡ none
      → AllWellFormed u.input
      → length u.input < rounds
      → length (all_rows (take_batches rounds u)) < fuel
      → take_rows process fuel u ≡ some (all_rows (take_batches rounds u))
  take_rows-take_batches fuel rounds u exact idle well enough_rounds enough =
      let same = all_rows-take_batches rounds u exact well enough_rounds in
      take_rows-passed process fuel u exact idle well
        (omega (arith, enough, ap (length {A = ℕ × ℕ}) same))
      ∙ ap some (sym same)
