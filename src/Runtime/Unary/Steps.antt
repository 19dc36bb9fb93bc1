-- ===== src/Runtime/Unary/Steps.antt =====
-- runtime/unary.c: the rounds of exec_row in a batch, against the rows that are left.
use pg_batch.Prelude.{
  ℕ, suc, ◌+◌, ◌-◌, ◌≡◌, ◌≢◌, refl, sym, ap, ◌∙◌, false, List, [], ◌∷◌, ◌++◌, map, Option, none,
  some, arith, length, subst, ◌==◌,
}
use pg_batch.Postgres.{PgBitutils}
use pg_batch.Batch.Selection.{Selection, IsWellFormed, contains, next}
use pg_batch.Batch.Selection.Rows.{rows, rows_where, rows_from}
use pg_batch.Batch.Selection.Next.{
  IsFirst, next-IsFirst, rows_from-IsFirst-some, rows_from-IsFirst-none,
}
use pg_batch.Limit.Stream.{Batch, AllWellFormed}
use pg_batch.Runtime.Unary.{
  Unary, Outcome, RowRound, next_round, returned, RowResult, row_step, row_round, row_loop,
}
use pg_batch.Runtime.Unary.Fetch.{left, Active}

module _ {Data : Type 0} ⦃pg : PgBitutils⦄
    (process : Option (Data → Selection → Outcome Data)) where
  abbrev pub rows_since : Batch → ℕ → List (ℕ × ℕ)
  rows_since b start = map (λ row. (b.number, row)) (rows_from b.selection start)

  -- An executor in a batch, of which the rows from `start` on are left.
  pub record Midway (u : Unary Data) (b : Batch) (start : ℕ) (out : List (ℕ × ℕ)) : Type 0 where
    pub active : u.active_batch ≡ some b
    pub cursor : IsFirst b.selection start u.next_row
    pub well_formed : IsWellFormed b.selection
    pub others : AllWellFormed u.input
    pub rows_left : out ≡ rows_since b start ++ left process u

  -- An executor that has to read a batch.
  pub record Idle (u : Unary Data) (out : List (ℕ × ℕ)) : Type 0 where
    pub active : u.active_batch ≡ none
    pub others : AllWellFormed u.input
    pub rows_left : out ≡ left process u

  -- What a call gives.
  pub data RowAnswer (result : RowResult Data) (out : List (ℕ × ℕ)) : Type 0 where
    no_row_left : (u : Unary Data) → result ≡ some (none, u) → out ≡ [] → RowAnswer result out
    gives_row :
        (row : ℕ × ℕ) (rest : List (ℕ × ℕ)) (u : Unary Data) (b : Batch) (start : ℕ)
        → result ≡ some (some row, u)
        → out ≡ row ∷ rest
        → Midway u b start rest
        → RowAnswer result out

  -- What a step in a batch comes to.
  pub data Stepped (round : RowRound Data) (out : List (ℕ × ℕ)) : Type 0 where
    batch_ended : (u : Unary Data) → round ≡ next_round u → Idle u out → Stepped round out
    row_found :
        (row : ℕ × ℕ) (rest : List (ℕ × ℕ)) (u : Unary Data) (b : Batch) (start : ℕ)
        → round ≡ returned row u
        → out ≡ row ∷ rest
        → Midway u b start rest
        → Stepped round out

  pub step-Stepped :
      (u : Unary Data) (b : Batch) (start : ℕ) (row : Option ℕ) (out : List (ℕ × ℕ))
      → IsFirst b.selection start row
      → IsWellFormed b.selection
      → u.active_batch ≡ some b
      → AllWellFormed u.input
      → out ≡ rows_since b start ++ left process u
      → Stepped (row_step u (some b) row) out
  unfolding row_step
  step-Stepped u b start none out first well active others e =
      batch_ended (record u { active_batch = none }) refl
        (record {
          active = refl;
          others = others;
          rows_left =
              e
              ∙ ap (λ l. map (λ row. (b.number, row)) l ++ left process u)
                  (rows_from-IsFirst-none b.selection start first);
        })
  step-Stepped u b start (some r) out first well active others e =
      row_found (b.number, r) (rows_since b (r + 1) ++ left process u)
        (record u { next_row = next b.selection (some r) }) b (r + 1) refl
        (e
          ∙ ap (λ l. map (λ row. (b.number, row)) l ++ left process u)
              (rows_from-IsFirst-some b.selection start r first))
        (record {
          active = active;
          cursor = next-IsFirst b.selection well (some r);
          well_formed = well;
          others = others;
          rows_left = refl;
        })

  some_row :
      (s : Selection) (row : Option ℕ)
      → IsFirst s 0 row
      → (length (rows s) == 0) ≡ false
      → row ≢ none
  some_row s none first some_rows e =
      let whole : s.nrows ≡ s.nrows - 0 = omega arith in
      let empty : rows s ≡ [] =
        ap (rows_where (contains s) 0) whole ∙ rows_from-IsFirst-none s 0 first in
      ground (arith, some_rows, ap (length {A = ℕ}) empty)
  some_row s (some r) first some_rows e = ground (arith, e)

  -- A batch that was just read gives its first row.
  pub first_step-Stepped :
      (u : Unary Data) (b : Batch) (out : List (ℕ × ℕ))
      → Active process u b out
      → Stepped (row_step u u.active_batch u.next_row) out × (u.next_row ≢ none)
  first_step-Stepped u b out h =
      let whole : b.selection.nrows ≡ b.selection.nrows - 0 = omega arith in
      let first : IsFirst b.selection 0 u.next_row =
        subst (IsFirst b.selection 0) (sym h.cursor)
          (next-IsFirst b.selection h.well_formed none) in
      (
        subst (λ o. Stepped (row_step u o u.next_row) out) (sym h.active)
            (step-Stepped u b 0 u.next_row out first h.well_formed h.active h.others (
              h.rows_left
              ∙ ap
                  (λ n.
                    map (λ row. (b.number, row)) (rows_where (contains b.selection) 0 n)
                    ++ left process u)
                  whole)),
        some_row b.selection u.next_row first h.some_rows,
      )

  pub row_step-returned :
      (u v : Unary Data) (b : Batch) (row : Option ℕ)
      → row ≢ none
      → row_step u (some b) row ≢ next_round v
  unfolding row_step
  row_step-returned u v b none h e = h refl
  row_step-returned u v b (some r) h e = ground (arith, e)

  pub after_step :
      (fuel : ℕ) (u : Unary Data) (out : List (ℕ × ℕ))
      → ((v : Unary Data) → Idle v out → RowAnswer (row_loop process fuel v) out)
      → Stepped (row_round process u u.active_batch) out
      → RowAnswer (row_loop process (suc fuel) u) out
  unfolding row_loop
  after_step fuel u out rest (batch_ended v e idle) = rw (row_loop, e) (rest v idle)
  after_step fuel u out rest (row_found row more v b start e is midway) =
      gives_row row more v b start (rw (row_loop, e)) is midway
