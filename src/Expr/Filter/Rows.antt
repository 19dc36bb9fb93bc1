-- ===== src/Expr/Filter/Rows.antt =====
-- expr/expr.c: a compiled filter keeps the rows for which the expression is true in SQL.
use pg_batch.Prelude.{
  ℕ, ◌/◌, ◌%◌, ◌^◌, ◌≤◌, ◌<◌, ◌≡◌, refl, sym, ◌∙◌, subst, inl, inr, Bool, true, false, ◌&&◌, List,
  [], ◌∷◌, map, Option, none, some, arith, length, get_or, ltb, Bool-cases, get_or-replicate, zero,
  suc,
}
use pg_batch.Prelude.Int.{ℤ}
use pg_batch.Prelude.Result.{Result, ok, err, ◌>>=◌}
use pg_batch.Bits.{Word, test_bit, zeros}
use pg_batch.Postgres.{PgBitutils, PgInt}
use pg_batch.Batch.Selection.{Selection, IsWellFormed, contains}
use pg_batch.Batch.Selection.Rows.{contains-test_bit}
use pg_batch.Kernels.Vector.{Int4Vector, row_is_null, row_value}
use pg_batch.Kernels.Compare.{Int4Op, compare}
use pg_batch.Kernels.Filter.{Sse2}
use pg_batch.Kernels.Filter.Agree.{passes, contains-filter_int4}
use pg_batch.Kernels.Arithmetic.{ArithmeticError}
use pg_batch.Kernels.Arithmetic.Cells.{cell}
use pg_batch.Expr.Nodes.{Node, Var, ParamKind, is_some}
use pg_batch.Expr.Compile.{Expr, Step, compile_filter, empty_expr}
use pg_batch.Expr.Vector.{Buffers, bind, has_rows}
use pg_batch.Expr.Vector.Steps.{outcome, and_then, steps_cell, contains-has_rows, first_row}
use pg_batch.Expr.Vector.Column.{BuffersRoom, HoldsVector, get_int4-HoldsVector}
use pg_batch.Expr.Sql.{evaluate_filter, EvaluatesScalars}
use pg_batch.Expr.Sql.Meaning.{lookup}
use pg_batch.Expr.Filter.{
  FilterError, not_a_filter, raised, or_raised, clear_all, select_by, filter_rows, apply_filter,
}
use pg_batch.Expr.Filter.Meaning.{decide, compile_filter-FilterCompiled}

-- SQL's WHERE: the condition is true, not false or null.
abbrev pub is_true : Option (Option Bool) → Bool
is_true (some (some true)) = true
is_true _ = false

-- For a condition at each row: on success the selected rows that are left are those where it is true, and
-- it is an error at none of them; an error is one at a selected row.
abbrev pub FiltersBy :
    (ℕ → Option (Option Bool)) → Selection → Result FilterError Selection → Type 0
FiltersBy condition s (ok s') =
    (row : ℕ)
    → (contains s' row ≡ contains s row && is_true (condition row))
      × (contains s row ≡ true → is_some (condition row) ≡ true)
FiltersBy condition s (err not_a_filter) = ⊥
FiltersBy condition s (err (raised x)) =
    (row : ℕ) × (row < s.nrows) × (contains s row ≡ true) × (condition row ≡ none)

contains-clear_all : (s : Selection) (row : ℕ) → contains (clear_all s) row ≡ false
contains-clear_all s row =
    contains-test_bit (clear_all s) row ∙ by_words s.words (row / 64) (row % 64)
  where
    by_words :
        (ws : List Word) (k i : ℕ) → test_bit (get_or (map (λ w. zeros 64) ws) k []) i ≡ false
    by_words [] k i = refl
    by_words (w ∷ ws) zero i = get_or-replicate 64 i false
    by_words (w ∷ ws) (suc k) i = by_words ws k i

module _ ⦃int : PgInt⦄ ⦃pg : PgBitutils⦄ (sse : Sse2) (available enable_simd : Bool)
    (exec_eval : Node → Result ArithmeticError (Option ℤ)) (s : Selection) (v : IsWellFormed s)
    (small : s.nrows ≤ 2 ^ 31) (columns : ℕ → Int4Vector) where
  module _ (column : ℕ) (steps : List Step) (op : Int4Op) (scalar : Node)
      (condition : ℕ → Option (Option Bool))
      (decides : (row : ℕ)
        → condition row
          ≡ and_then
              (steps_cell exec_eval steps (cell (columns column) row))
              (λ a. and_then (outcome (exec_eval scalar)) (λ b. some (decide op a b)))) where
    passes-cell :
        (vector : Int4Vector) (a : ℤ) (row : ℕ)
        → passes vector op a row ≡ is_true (some (decide op (cell vector row) (some a)))
    passes-cell vector a row = elim (Bool-cases (row_is_null vector row)) [
      | inl null ↦ rw null
      | inr value ↦
          rw value (elim (Bool-cases (compare (row_value vector row) a op)) [
            | inl t ↦ rw t
            | inr t ↦ rw t
          ])
    ]

    selected_in : (row : ℕ) → contains s row ≡ true → row < s.nrows
    selected_in row on = elim (Bool-cases (ltb row s.nrows)) [
      | inl l ↦ ground (arith, l)
      | inr l ↦ let off = v.within row (ground (arith, l)) in absurd (ground (arith, off, on))
    ]

    decide_null : (p : Int4Op) (o : Option ℤ) → decide p o none ≡ none
    decide_null p none = refl
    decide_null p (some a) = refl

    select_by-FiltersBy :
        (vector : Int4Vector) (w : Option ℤ)
        → ((row : ℕ) → contains s row ≡ true → condition row ≡ some (decide op (cell vector row) w))
        → FiltersBy condition s
            (ok (select_by sse available enable_simd exec_eval s columns vector op w))
    unfolding select_by
    select_by-FiltersBy vector none h = λ row. (
      contains-clear_all s row ∙ elim (Bool-cases (contains s row)) [
        | inl on ↦ rw (on, h row on, decide_null op (cell vector row))
        | inr off ↦ rw off
      ],
      λ on. rw (h row on),
    )
    select_by-FiltersBy vector (some a) h = λ row. (
      contains-filter_int4 sse available vector op a enable_simd s v row
          ∙ elim (Bool-cases (contains s row)) [
            | inl on ↦ rw (on, h row on, passes-cell vector a row)
            | inr off ↦ rw off
          ],
      λ on. rw (h row on),
    )

    by_scalar :
        (w : Result ArithmeticError (Option ℤ)) (vector : Int4Vector)
        → w ≡ exec_eval scalar
        → has_rows s ≡ true
        → ((row : ℕ)
            → row < s.nrows
            → contains s row ≡ true
            → steps_cell exec_eval steps (cell (columns column) row) ≡ some (cell vector row))
        → FiltersBy condition s (
            or_raised w >>= λ x.
            ok (select_by sse available enable_simd exec_eval s columns vector op x))
    by_scalar (ok x) vector e h held =
        select_by-FiltersBy vector x
          (λ row on. decides row ∙ rw (held row (selected_in row on) on, sym e))
    by_scalar (err x) vector e h held =
        let (row, b, on) = first_row s v h in (row, b, on, decides row ∙ rw (held row b on, sym e))

    by_vector :
        (r : Result ArithmeticError (Int4Vector × Buffers))
        → has_rows s ≡ true
        → HoldsVector exec_eval s v small columns
            (λ row. steps_cell exec_eval steps (cell (columns column) row))
            r
        → FiltersBy condition s (
            or_raised r >>= λ t. or_raised (exec_eval scalar) >>= λ x.
            ok (select_by sse available enable_simd exec_eval s columns t.0 op x))
    by_vector (ok t) h held = by_scalar (exec_eval scalar) t.0 refl h held
    by_vector (err x) h (row, b, on, e) = (row, b, on, decides row ∙ rw e)

    no_rows : has_rows s ≡ false → FiltersBy condition s (ok s)
    no_rows h row = (
      elim (Bool-cases (contains s row)) [ inl on ↦ absurd (none_there row on) | inr off ↦ rw off ],
      λ on. absurd (none_there row on),
    )
      where
        none_there : (row : ℕ) → contains s row ≡ true → ⊥
        none_there row on = let c = contains-has_rows s row on in ground (arith, c, h)

    apply_filter-FiltersBy :
        (b : Buffers)
        → BuffersRoom (length steps) b
        → FiltersBy condition s (
            apply_filter sse available enable_simd exec_eval s columns
              (record empty_expr {
                column = some column;
                steps = steps;
                comparison = some (op, scalar);
              })
              (bind b))
    unfolding apply_filter filter_rows
    apply_filter-FiltersBy b room = elim (Bool-cases (has_rows s)) [
      | inl h ↦ rw h (
          by_vector _ h (
            unfold bind in
            get_int4-HoldsVector exec_eval s v small columns
              (record empty_expr { steps = steps; comparison = some (op, scalar) }) b column room))
      | inr h ↦ rw h (no_rows h)
    ]

  -- Let `node` compile as a filter, and let ExecEvalExpr evaluate expressions without a Var. On a
  -- well-formed batch of at most 2^31 rows, with buffers that hold as many rows as their capacity tells,
  -- the filter keeps the selected rows for which SQL's value of `node` at that row is true (not false,
  -- and not null); it raises an error exactly if that value is an error at some selected row.
  pub compile_filter-FiltersBy :
      (param_value : ParamKind → ℕ → Option ℤ) (scalars : EvaluatesScalars param_value exec_eval)
      (resolve_var : Var → Option ℕ) (node : Node) (e : Expr) (b : Buffers)
      → compile_filter resolve_var node ≡ ok e
      → BuffersRoom (length e.steps) b
      → FiltersBy
          (λ row.
            evaluate_filter param_value
              (lookup exec_eval param_value scalars resolve_var (λ c. cell (columns c) row))
              node)
          s
          (apply_filter sse available enable_simd exec_eval s columns e (bind b))
  compile_filter-FiltersBy param_value scalars resolve_var node e b eq room =
      let c = compile_filter-FilterCompiled exec_eval param_value scalars resolve_var node e eq in
      subst
        (λ x.
          FiltersBy
            (λ row.
              evaluate_filter param_value
                (lookup exec_eval param_value scalars resolve_var (λ k. cell (columns k) row)) node)
            s (apply_filter sse available enable_simd exec_eval s columns x (bind b)))
        (sym c.compiled)
        (apply_filter-FiltersBy c.column c.steps c.op c.scalar _
          (λ row.
            c.meaning (λ k. cell (columns k) row)
            ∙ rw (
              ← c.value_meaning (λ k. cell (columns k) row),
              ← c.scalar_meaning (λ k. cell (columns k) row),
            ))
          b (subst (λ x. BuffersRoom (length x.steps) b) c.compiled room))
