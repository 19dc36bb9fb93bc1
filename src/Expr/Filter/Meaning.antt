-- ===== src/Expr/Filter/Meaning.antt =====
-- expr/expr.c: what pg_batch_expr_compile_filter finds: a column, steps and a comparison that decide the
-- filter as SQL does.
use pg_batch.Prelude.{
  ℕ, ◌+◌, ◌≡◌, ◌⊎◌, inl, inr, refl, ap, sym, ◌∙◌, Bool, true, false, List, Option, none, some,
  arith, ◌==◌, if◌then◌else◌, Bool-cases,
}
use mathlib.Core.Option
use pg_batch.Prelude.Int.{ℤ}
use pg_batch.Prelude.Result.{Result, ok, err}
use pg_batch.Postgres.{PgInt}
use pg_batch.Kernels.Compare.{Funcid, Int4Op, compare, compare_op, compare_op_lem}
use pg_batch.Kernels.Arithmetic.{ArithmeticError}
use pg_batch.Expr.Nodes.{
  Node, Var, TypeOid, ParamKind, op2, strip_relabel, analyze_value, analyze_filter,
  analyze_stripped, one_var,
}
use pg_batch.Expr.Compile.{
  Expr, Step, empty_expr, compile_value, compile_filter, compile_sides, unsupported_filter,
}
use pg_batch.Expr.Vector.Steps.{outcome, and_then, steps_cell}
use pg_batch.Expr.Sql.{
  evaluate, evaluate_filter, evaluate_stripped, compare_values, EvaluatesScalars,
}
use pg_batch.Expr.Sql.Compiled.{and_then_swap, and_then_congr}
use pg_batch.Expr.Sql.Meaning.{lookup, compile_value-Compiled}

-- The comparison on the value and the scalar; a null decides nothing.
abbrev pub decide : Int4Op → Option ℤ → Option ℤ → Option Bool
decide op (some a) (some b) = some (compare a b op)
decide op _ _ = none

abbrev pick : ℕ → Option Int4Op → Option (ℕ × Int4Op)
pick k o = elim o [ none ↦ none | some p ↦ some (k, p) ]

-- What one_var says when it finds the argument with the Var.
one_var-found :
    (f : Funcid) (l r : Option ℕ) (value_arg : ℕ) (op : Int4Op)
    → one_var f l r ≡ some (value_arg, op)
    → (compare_op f value_arg ≡ some op)
      × (((value_arg ≡ 0) × (l ≡ some 1) × (r ≡ some 0))
          ⊎ ((value_arg ≡ 1) × (l ≡ some 0) × (r ≡ some 1)))
one_var-found f none r value_arg op h = absurd (ground (arith, h))
one_var-found f (some l) none value_arg op h = absurd (ground (arith, h))
one_var-found f (some l) (some r) value_arg op h =
    let k : ℕ = if l == 1 then 0 else 1 in
    let d = found (compare_op f k) k (l + r == 1) h in
    (
      ap (compare_op f) (sym d.1) ∙ d.2,
      elim (Bool-cases (l == 1)) [
        | inl e ↦
            inl (sym d.1 ∙ ground arith, ap some (ground arith), ap some (ground (arith, d.0)))
        | inr n ↦
            inr
              (sym d.1 ∙ ground arith, ap some (ground (arith, d.0)), ap some (ground (arith, d.0)))
      ],
    )
  where
    found :
        (o : Option Int4Op) (k : ℕ) (b : Bool)
        → (if b then pick k o else none) ≡ some (value_arg, op)
        → (b ≡ true) × (k ≡ value_arg) × (o ≡ some op)
    found o k false e = absurd (ground (arith, e))
    found none k true e = absurd (ground (arith, e))
    found (some p) k true e = (refl, ground (arith, e), ground (arith, e))

-- The comparison that was found decides as the operator's function does.
compare_values-decide :
    ⦃int : PgInt⦄ (param_value : ParamKind → ℕ → Option ℤ) (f : Funcid) (op : Int4Op)
    (a b : Option ℤ)
    → (compare_op f 0 ≡ some op → compare_values param_value f a b ≡ some (decide op a b))
      × (compare_op f 1 ≡ some op → compare_values param_value f b a ≡ some (decide op a b))
compare_values-decide param_value f op (some a) (some b) = (
  λ e. ap some (sym (compare_op_lem f a b).0 ∙ ap (Option.map (compare a b)) e),
  λ e. ap some (sym (compare_op_lem f a b).1 ∙ ap (Option.map (compare a b)) e),
)
compare_values-decide param_value f op none none = (λ e. refl, λ e. refl)
compare_values-decide param_value f op none (some b) = (λ e. refl, λ e. refl)
compare_values-decide param_value f op (some a) none = (λ e. refl, λ e. refl)

module _ ⦃int : PgInt⦄ (exec_eval : Node → Result ArithmeticError (Option ℤ))
    (param_value : ParamKind → ℕ → Option ℤ) (scalars : EvaluatesScalars param_value exec_eval)
    (resolve_var : Var → Option ℕ) where
  -- A filter is a comparison of a column after some steps with a scalar expression.
  pub record FilterCompiled (node : Node) (e : Expr) : Type 0 where
    pub column : ℕ
    pub steps : List Step
    pub op : Int4Op
    pub scalar : Node
    pub value : Node
    pub compiled :
        e
        ≡ record empty_expr { column = some column; steps = steps; comparison = some (op, scalar) }
    pub value_meaning :
        (cells : ℕ → Option ℤ)
        → steps_cell exec_eval steps (cells column)
          ≡ evaluate param_value (lookup exec_eval param_value scalars resolve_var cells) value
    pub scalar_meaning :
        (cells : ℕ → Option ℤ)
        → outcome (exec_eval scalar)
          ≡ evaluate param_value (lookup exec_eval param_value scalars resolve_var cells) scalar
    pub meaning :
        (cells : ℕ → Option ℤ)
        → evaluate_filter param_value (lookup exec_eval param_value scalars resolve_var cells) node
          ≡ and_then
              (evaluate param_value (lookup exec_eval param_value scalars resolve_var cells) value)
              (λ a.
                and_then
                  (evaluate param_value
                    (lookup exec_eval param_value scalars resolve_var cells)
                    scalar)
                  (λ b. some (decide op a b)))

  from_sides :
      (node value scalar : Node) (op : Int4Op) (e : Expr)
      → analyze_value value 0 ≡ some 1
      → analyze_value scalar 0 ≡ some 0
      → compile_value resolve_var (record empty_expr { comparison = some (op, scalar) }) value
        ≡ ok e
      → ((cells : ℕ → Option ℤ)
          → evaluate_filter param_value
              (lookup exec_eval param_value scalars resolve_var cells)
              node
            ≡ and_then
                (evaluate param_value
                  (lookup exec_eval param_value scalars resolve_var cells)
                  value)
                (λ a.
                  and_then
                    (evaluate param_value
                      (lookup exec_eval param_value scalars resolve_var cells)
                      scalar)
                    (λ b. some (decide op a b))))
      → FilterCompiled node e
  from_sides node value scalar op e v n eq m =
      let c =
        compile_value-Compiled exec_eval param_value scalars resolve_var value
          (record empty_expr { comparison = some (op, scalar) }) e v eq in
      record {
        column = c.column;
        steps = c.added;
        op = op;
        scalar = scalar;
        value = value;
        compiled = c.compiled;
        value_meaning = c.meaning;
        scalar_meaning =
            λ cells. scalars scalar (lookup exec_eval param_value scalars resolve_var cells) n;
        meaning = m;
      }

  -- A node that compiles as a filter is decided, at every row, by the column, the steps and the
  -- comparison that compilation finds.
  pub compile_filter-FilterCompiled :
      (node : Node) (e : Expr) → compile_filter resolve_var node ≡ ok e → FilterCompiled node e
  unfolding compile_filter analyze_filter analyze_stripped compile_sides
  compile_filter-FilterCompiled node e eq =
      by_node (strip_relabel node) (analyze_stripped (strip_relabel node) 0) refl refl eq
    where
      by_side :
          (f : Funcid) (type : TypeOid) (left right : Node) (value_arg : ℕ) (op : Int4Op)
          → strip_relabel node ≡ op2 f type left right
          → one_var f (analyze_value left 0) (analyze_value right 0) ≡ some (value_arg, op)
          → compile_sides resolve_var (op2 f type left right) (value_arg, op) ≡ ok e
          → FilterCompiled node e
      by_side f type left right value_arg op s one eq =
          let found =
            one_var-found f (analyze_value left 0) (analyze_value right 0) value_arg op one in
          elim found.1 [
            | inl (z, l, r) ↦
                from_sides node left right op e l r
                  (sym (ap (λ k. compile_sides resolve_var (op2 f type left right) (k, op)) z) ∙ eq)
                  (λ cells.
                    ap
                      (evaluate_stripped param_value
                        (lookup exec_eval param_value scalars resolve_var cells))
                      s
                    ∙ and_then_congr
                        (evaluate param_value
                          (lookup exec_eval param_value scalars resolve_var cells) left)
                        _ _
                        (λ a.
                          and_then_congr
                            (evaluate param_value
                              (lookup exec_eval param_value scalars resolve_var cells) right)
                            _ _
                            (λ b.
                              (compare_values-decide param_value f op a b).0
                                (ap (compare_op f) (sym z) ∙ found.0))))
            | inr (z, l, r) ↦
                from_sides node right left op e r l
                  (sym (ap (λ k. compile_sides resolve_var (op2 f type left right) (k, op)) z) ∙ eq)
                  (λ cells.
                    ap
                      (evaluate_stripped param_value
                        (lookup exec_eval param_value scalars resolve_var cells))
                      s
                    ∙ and_then_swap
                        (evaluate param_value
                          (lookup exec_eval param_value scalars resolve_var cells) left)
                        (evaluate param_value
                          (lookup exec_eval param_value scalars resolve_var cells) right)
                        (compare_values param_value f)
                    ∙ and_then_congr
                        (evaluate param_value
                          (lookup exec_eval param_value scalars resolve_var cells) right)
                        _ _
                        (λ a.
                          and_then_congr
                            (evaluate param_value
                              (lookup exec_eval param_value scalars resolve_var cells) left)
                            _ _
                            (λ b.
                              (compare_values-decide param_value f op a b).1
                                (ap (compare_op f) (sym z) ∙ found.0))))
          ]

      by_node :
          (n : Node) (o : Option (ℕ × Int4Op))
          → strip_relabel node ≡ n
          → analyze_stripped n 0 ≡ o
          → (elim o [
            | none ↦ err unsupported_filter
            | some found ↦ compile_sides resolve_var n found
          ])
            ≡ ok e
          → FilterCompiled node e
      by_node n none s a eq = absurd (ground (arith, eq))
      by_node (op2 f type left right) (some (value_arg, op)) s a eq =
          by_side f type left right value_arg op s (ground (arith, a)) eq
      by_node _ (some found) s a eq = absurd (ground (arith, a))
