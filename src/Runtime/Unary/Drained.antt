-- ===== src/Runtime/Unary/Drained.antt =====
-- runtime/unary.c: exec_row gives the rows of the processed batches one by one, in order.
use pg_batch.Prelude.{
  ℕ, zero, suc, ◌+◌, ◌<◌, ◌≡◌, ◌≢◌, refl, sym, ap, ◌∙◌, true, false, List, [], ◌∷◌, Option, none,
  some, arith, length, subst,
}
use pg_batch.Postgres.{PgBitutils}
use pg_batch.Batch.Selection.{Selection}
use pg_batch.Limit.Stream.{Batch, AllWellFormed}
use pg_batch.Runtime.Unary.{
  Unary, Outcome, ended, fetch_batch, row_step, row_round, row_loop, exec_row,
}
use pg_batch.Runtime.Unary.Fetch.{
  IsExact, passed, Fetching, exhausted, fetched, fetch_loop-Fetching,
}
use pg_batch.Runtime.Unary.Steps.{
  Midway, Idle, RowAnswer, no_row_left, gives_row, Stepped, batch_ended, row_found, step-Stepped,
  first_step-Stepped, row_step-returned, after_step,
}

module _ {Data : Type 0} ⦃pg : PgBitutils⦄
    (process : Option (Data → Selection → Outcome Data)) where
  ended_round :
      (u v : Unary Data) → fetch_batch process u ≡ (false, v) → row_round process u none ≡ ended v
  unfolding row_round
  ended_round u v e = rw (row_round, e)

  ended_row :
      (fuel : ℕ) (u v : Unary Data)
      → u.active_batch ≡ none
      → fetch_batch process u ≡ (false, v)
      → row_loop process (suc fuel) u ≡ some (none, v)
  unfolding row_loop
  ended_row fuel u v idle e = rw (row_loop, ap (row_round process u) idle ∙ ended_round u v e)

  found_at_none :
      (u v : Unary Data)
      → fetch_batch process u ≡ (true, v)
      → row_round process u none ≡ row_step v v.active_batch v.next_row
  unfolding row_round
  found_at_none u v e = rw (row_round, e)

  found_round :
      (u v : Unary Data)
      → u.active_batch ≡ none
      → fetch_batch process u ≡ (true, v)
      → row_round process u u.active_batch ≡ row_step v v.active_batch v.next_row
  found_round u v idle e = ap (row_round process u) idle ∙ found_at_none u v e

  found_answer :
      (fuel : ℕ) (u v : Unary Data) (b : Batch) (out : List (ℕ × ℕ))
      → row_round process u u.active_batch ≡ row_step v v.active_batch v.next_row
      → v.active_batch ≡ some b
      → Stepped process (row_step v v.active_batch v.next_row) out
      → v.next_row ≢ none
      → RowAnswer process (row_loop process (suc fuel) u) out
  unfolding row_loop
  found_answer fuel u v b out e active (row_found row rest w c start f is midway) some_next =
      gives_row row rest w c start (rw (row_loop, e ∙ f)) is midway
  found_answer fuel u v b out e active (batch_ended w f idle) some_next = absurd (
      row_step-returned process v w b v.next_row some_next
        (ap (λ o. row_step v o v.next_row) (sym active) ∙ f))

  -- The call of an executor that has to read a batch.
  round_without_batch :
      (fuel : ℕ) (u : Unary Data) (out : List (ℕ × ℕ))
      → IsExact process
      → Idle process u out
      → RowAnswer process (row_loop process (suc fuel) u) out
  unfolding fetch_batch
  round_without_batch fuel u out exact h = by_fetching (
      subst (Fetching process (fetch_batch process u) (length u.input)) (sym h.rows_left)
        (fetch_loop-Fetching process exact u.input u h.others))
    where
      by_fetching :
          Fetching process (fetch_batch process u) (length u.input) out
          → RowAnswer process (row_loop process (suc fuel) u) out
      by_fetching (exhausted v e nil) = no_row_left v (ended_row fuel u v h.active e) nil
      by_fetching (fetched v b e active less) =
          let (stepped, some_next) = first_step-Stepped process v b out active in
          found_answer fuel u v b out (found_round u v h.active e) active.active stepped some_next

  round_in_batch :
      (fuel : ℕ) (u : Unary Data) (b : Batch) (start : ℕ) (out : List (ℕ × ℕ))
      → IsExact process
      → Midway process u b start out
      → RowAnswer process (row_loop process (suc (suc fuel)) u) out
  unfolding row_round
  round_in_batch fuel u b start out exact h =
      after_step process (suc fuel) u out (λ v idle. round_without_batch fuel v out exact idle)
        (subst (λ o. Stepped process (row_round process u o) out) (sym h.active)
          (step-Stepped process u b start u.next_row out h.cursor h.well_formed h.active h.others
            h.rows_left))

  two_rounds :
      (u : Unary Data) (out : List (ℕ × ℕ))
      → RowAnswer process (row_loop process (suc (suc (length u.input))) u) out
      → RowAnswer process (exec_row process u) out
  unfolding exec_row
  two_rounds u out h =
      let rounds : suc (suc (length u.input)) ≡ length u.input + 2 = omega arith in
      subst (λ n. RowAnswer process (row_loop process n u) out) rounds h

  -- A client that takes rows until there are none; `none` where its rounds run out.
  unfoldable pub take_rows : ℕ → Unary Data → Option (List (ℕ × ℕ))
  take_rows zero u = none
  take_rows (suc fuel) u = elim (exec_row process u) [
    | none ↦ none
    | some (o, v) ↦ elim o [
      | none ↦ some []
      | some row ↦ elim (take_rows fuel v) [ none ↦ none | some rest ↦ some (row ∷ rest) ]
    ]
  ]

  take_answer :
      (fuel : ℕ) (u : Unary Data) (out : List (ℕ × ℕ))
      → length out < suc fuel
      → ((v : Unary Data) (b : Batch) (start : ℕ) (rest : List (ℕ × ℕ))
          → length rest < fuel
          → Midway process v b start rest
          → take_rows fuel v ≡ some rest)
      → RowAnswer process (exec_row process u) out
      → take_rows (suc fuel) u ≡ some out
  unfolding take_rows
  take_answer fuel u out enough more (no_row_left v e nil) = rw (take_rows, e) (ap some (sym nil))
  take_answer fuel u out enough more (gives_row row rest v b start e is midway) =
      rw
        (
          take_rows,
          e,
          more v b start rest (omega (arith, enough, ap (length {A = ℕ × ℕ}) is)) midway,
        )
        (ap some (sym is))

  take_in_batch :
      (fuel : ℕ) (u : Unary Data) (b : Batch) (start : ℕ) (out : List (ℕ × ℕ))
      → IsExact process
      → length out < fuel
      → Midway process u b start out
      → take_rows fuel u ≡ some out
  take_in_batch zero u b start out exact enough h = elim enough [ ]
  take_in_batch (suc fuel) u b start out exact enough h =
      take_answer fuel u out enough
        (λ v c s rest less mid. take_in_batch fuel v c s rest exact less mid)
        (two_rounds u out (round_in_batch (length u.input) u b start out exact h))

  -- In row mode an executor that has no batch yet gives exactly the rows of the processed batches, in
  -- order and up to the batch at which the node stops, and then no row. The batches of the child are
  -- well formed, `process` keeps that and returns the number of the rows it leaves; the client has a
  -- round for each row and one more.
  pub take_rows-passed :
      (fuel : ℕ) (u : Unary Data)
      → IsExact process
      → u.active_batch ≡ none
      → AllWellFormed u.input
      → length (passed process u.stopped u.private_data u.input) < fuel
      → take_rows fuel u ≡ some (passed process u.stopped u.private_data u.input)
  take_rows-passed zero u exact idle well enough = elim enough [ ]
  take_rows-passed (suc fuel) u exact idle well enough =
      let out = passed process u.stopped u.private_data u.input in
      take_answer fuel u out enough
        (λ v c s rest less mid. take_in_batch fuel v c s rest exact less mid)
        (two_rounds u out (
          round_without_batch (suc (length u.input)) u out exact
            (record { active = idle; others = well; rows_left = refl })))
