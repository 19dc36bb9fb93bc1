-- ===== src/Runtime/Unary/Fetch.antt =====
-- runtime/unary.c: fetch_batch against the rows that the child's batches still come to.
use pg_batch.Prelude.{
  ℕ, suc, ◌<◌, ◌≡◌, refl, sym, ap, ◌∙◌, inl, inr, Bool, true, false, List, [], ◌∷◌, ◌++◌, map,
  Option, none, some, arith, length, ◌==◌, subst, ==_iff, Bool-cases,
}
use pg_batch.Postgres.{PgBitutils}
use pg_batch.Batch.Selection.{Selection, IsWellFormed, next}
use pg_batch.Batch.Selection.Rows.{rows}
use pg_batch.Limit.Stream.{Batch, batch_rows, AllWellFormed}
use pg_batch.Runtime.Unary.{Unary, Outcome, run_process, processed, activated, fetch_loop}

no_row : {A : Type 0} (xs : List A) → length xs ≡ 0 → xs ≡ []
no_row [] h = refl
no_row (x ∷ xs) h = absurd (omega (arith, h))

module _ {Data : Type 0} ⦃pg : PgBitutils⦄
    (process : Option (Data → Selection → Outcome Data)) where
  -- What the executor asserts of the result of `process`.
  abbrev pub IsExact : Type 0
  IsExact =
      (before : Data) (s : Selection)
      → IsWellFormed s
      → IsWellFormed (run_process process before s).selection
        × ((run_process process before s).rows
            ≡ length (rows (run_process process before s).selection))

  -- The rows of the processed batches, up to the batch at which the node stops.
  unfoldable pub passed : Bool → Data → List Batch → List (ℕ × ℕ)
  passed true before bs = []
  passed false before [] = []
  passed false before (b ∷ bs) =
      let o = run_process process before b.selection in
      batch_rows (record b { selection = o.selection }) ++ passed o.stops o.private_data bs

  abbrev pub left : Unary Data → List (ℕ × ℕ)
  left u = passed u.stopped u.private_data u.input

  -- An executor that has just read a batch with rows.
  pub record Active (v : Unary Data) (b : Batch) (out : List (ℕ × ℕ)) : Type 0 where
    pub active : v.active_batch ≡ some b
    pub cursor : v.next_row ≡ next b.selection none
    pub well_formed : IsWellFormed b.selection
    pub others : AllWellFormed v.input
    pub rows_left : out ≡ batch_rows b ++ left v
    pub some_rows : (length (rows b.selection) == 0) ≡ false

  pub data Fetching (result : Bool × Unary Data) (n : ℕ) (out : List (ℕ × ℕ)) : Type 0 where
    exhausted : (v : Unary Data) → result ≡ (false, v) → out ≡ [] → Fetching result n out
    fetched :
        (v : Unary Data) (b : Batch)
        → result ≡ (true, v)
        → Active v b out
        → length v.input < n
        → Fetching result n out

  passed_stopped :
      (before : Data) (bs : List Batch) (stop : Bool) → stop ≡ true → passed stop before bs ≡ []
  unfolding passed
  passed_stopped before bs stop h = rw h

  passed_none : (before : Data) (stop : Bool) → passed stop before [] ≡ []
  unfolding passed
  passed_none before true = refl
  passed_none before false = refl

  passed_next :
      (u : Unary Data) (b : Batch) (bs : List Batch)
      → u.stopped ≡ false
      → passed u.stopped u.private_data (b ∷ bs)
        ≡ batch_rows
            (record b { selection = (run_process process u.private_data b.selection).selection })
          ++ left (processed process u b bs)
  unfolding passed processed
  passed_next u b bs h = rw h

  loop_stopped :
      (u : Unary Data) (b : Batch) (bs : List Batch)
      → u.stopped ≡ true
      → fetch_loop process (b ∷ bs) u ≡ (false, u)
  unfolding fetch_loop
  loop_stopped u b bs h = rw h

  loop_empty :
      (u : Unary Data) (b : Batch) (bs : List Batch)
      → u.stopped ≡ false
      → ((run_process process u.private_data b.selection).rows == 0) ≡ true
      → fetch_loop process (b ∷ bs) u ≡ fetch_loop process bs (processed process u b bs)
  unfolding fetch_loop
  loop_empty u b bs h e = rw (h, e)

  loop_found :
      (u : Unary Data) (b : Batch) (bs : List Batch)
      → u.stopped ≡ false
      → ((run_process process u.private_data b.selection).rows == 0) ≡ false
      → fetch_loop process (b ∷ bs) u ≡ (
        true,
        activated (processed process u b bs) b (run_process process u.private_data b.selection),
      )
  unfolding fetch_loop
  loop_found u b bs h e = rw (h, e)

  later :
      (result again : Bool × Unary Data) (n : ℕ) (out rest : List (ℕ × ℕ))
      → result ≡ again
      → out ≡ rest
      → Fetching again n rest
      → Fetching result (suc n) out
  later result again n out rest e f (exhausted v g nil) = exhausted v (e ∙ g) (f ∙ nil)
  later result again n out rest e f (fetched v b g active less) =
      fetched v b (e ∙ g) (subst (Active v b) (sym f) active) (omega (arith, less))

  activated-Active :
      (u : Unary Data) (b : Batch) (bs : List Batch) (o : Outcome Data) (out : List (ℕ × ℕ))
      → IsWellFormed o.selection
      → AllWellFormed bs
      → out ≡ batch_rows (record b { selection = o.selection }) ++ left (processed process u b bs)
      → (length (rows o.selection) == 0) ≡ false
      → Active (activated (processed process u b bs) b o) (record b { selection = o.selection }) out
  unfolding activated processed
  activated-Active u b bs o out well others e some_rows = record {
    active = refl;
    cursor = refl;
    well_formed = well;
    others = others;
    rows_left = e;
    some_rows = some_rows;
  }

  pub fetch_loop-Fetching :
      IsExact
      → (bs : List Batch) (u : Unary Data) → AllWellFormed bs
      → Fetching (fetch_loop process bs u) (length bs) (passed u.stopped u.private_data bs)
  unfolding processed
  fetch_loop-Fetching exact [] u h =
      exhausted u (unfold fetch_loop in refl) (passed_none u.private_data u.stopped)
  fetch_loop-Fetching exact (b ∷ bs) u h =
      let o = run_process process u.private_data b.selection in
      let v = processed process u b bs in
      let (well, counted) = exact u.private_data b.selection (h.0) in
      let rest = fetch_loop-Fetching exact bs v (h.1) in
      elim (Bool-cases u.stopped) [
        | inl stop ↦
            exhausted u (loop_stopped u b bs stop)
              (passed_stopped u.private_data (b ∷ bs) u.stopped stop)
        | inr running ↦ elim (Bool-cases (o.rows == 0)) [
          | inl zero_rows ↦
              later (fetch_loop process (b ∷ bs) u) (fetch_loop process bs v) (length bs)
                (passed u.stopped u.private_data (b ∷ bs)) (passed v.stopped v.private_data bs)
                (loop_empty u b bs running zero_rows)
                (passed_next u b bs running
                  ∙ ap (λ l. map (λ row. (b.number, row)) l ++ left v)
                      (no_row (rows o.selection) (sym counted ∙ (==_iff o.rows 0).0 zero_rows)))
                rest
          | inr found ↦
              fetched (activated v b o) (record b { selection = o.selection })
                (loop_found u b bs running found)
                (activated-Active u b bs o (passed u.stopped u.private_data (b ∷ bs)) well (h.1)
                  (passed_next u b bs running) (ap (λ n. n == 0) (sym counted) ∙ found))
                (unfold activated processed in omega arith)
        ]
      ]
