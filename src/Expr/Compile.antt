-- ===== src/Expr/Compile.antt =====
-- expr/expr.c: compilation of a node. ExecInitExpr is PostgreSQL's: an ExprState stands for its node.
use pg_batch.Prelude.{
  ℕ, Bool, true, false, Option, none, some, List, [], ◌∷◌, ◌++◌, if◌then◌else◌, ◌==◌,
}
use pg_batch.Prelude.Result.{Result, ok, err, ◌>>=◌}
use pg_batch.Kernels.Compare.{Int4Op}
use pg_batch.Kernels.Arithmetic.{ArithmeticOp}
use pg_batch.Expr.Nodes.{
  Node, Var, relabel, var, const, param, op1, op2, op_n, other_node, strip_relabel, arithmetic_op,
  analyze_value, analyze_filter, supports_int4,
}

pub record Step : Type 0 where
  pub op : ArithmeticOp
  pub scalar : Option Node
  pub scalar_on_left : Bool

-- What compilation fixes; -1 of `column` is `none`.
pub record Expr : Type 0 where
  pub column : Option ℕ
  pub scalar_value : Option Node
  pub steps : List Step
  pub comparison : Option (Int4Op × Node)

-- The elog calls of compile_value and compile_expression.
pub data CompileError : Type 0 where
  unavailable_column unsupported_value invalid_arithmetic unsupported_filter : CompileError

abbrev pub empty_expr : Expr
empty_expr = record { column = none; scalar_value = none; steps = []; comparison = none }

abbrev pub append_step : Expr → ArithmeticOp → Option Node → Bool → Expr
append_step e op scalar scalar_on_left = record e {
  steps = e.steps ++ (record { op = op; scalar = scalar; scalar_on_left = scalar_on_left }) ∷ [];
}

-- A PgBatchExprResolveVar callback; a negative column is `none`.
module _ (resolve_var : Var → Option ℕ) where
  unfoldable pub resolve_column : Expr → Var → Result CompileError Expr
  resolve_column e v = elim (resolve_var v) [
    | none ↦ err unavailable_column
    | some column ↦ ok (record e { column = some column })
  ]

  -- `expr->scalar_value = ExecInitExpr(node)`
  pub set_scalar : Expr → Node → Result CompileError Expr
  set_scalar e node = ok (record e { scalar_value = some node })

  -- The operator case after the test for a scalar: `rest` compiles the argument with the Var.
  unfoldable pub with_step :
      Option ArithmeticOp → Option Node → Bool → Result CompileError Expr → Result CompileError Expr
  with_step none scalar on_left rest = err invalid_arithmetic
  with_step (some op) scalar on_left rest = rest >>= λ e. ok (append_step e op scalar on_left)

  unfoldable pub compile_value : Expr → Node → Result CompileError Expr
  unfolding resolve_column set_scalar with_step
  compile_value e (relabel arg) = compile_value e arg
  compile_value e (var v) = resolve_column e v
  compile_value e (const type value) = elim (analyze_value (const type value) 0) [
    | none ↦ err unsupported_value
    | some vars ↦ set_scalar e (const type value)
  ]
  compile_value e (param type kind id) = elim (analyze_value (param type kind id) 0) [
    | none ↦ err unsupported_value
    | some vars ↦ set_scalar e (param type kind id)
  ]
  compile_value e (op1 f type arg) =
      let rest = with_step (arithmetic_op f 1) none false (compile_value e arg) in
      elim (analyze_value (op1 f type arg) 0) [
        | none ↦ err unsupported_value
        | some vars ↦ if vars == 0 then set_scalar e (op1 f type arg) else rest
      ]
  compile_value e (op2 f type left right) =
      let on_left = with_step (arithmetic_op f 2) (some right) false (compile_value e left) in
      let on_right = with_step (arithmetic_op f 2) (some left) true (compile_value e right) in
      elim (analyze_value (op2 f type left right) 0) [
        | none ↦ err unsupported_value
        | some vars ↦
            if vars == 0
            then set_scalar e (op2 f type left right)
            else elim (analyze_value left 0) [
              | none ↦ on_right
              | some left_vars ↦ if left_vars == 1 then on_left else on_right
            ]
      ]
  compile_value e (op_n f type n) = err unsupported_value
  compile_value e (other_node n) = err unsupported_value

  -- compile_expression with `filter` false: pg_batch_expr_compile_int4
  pub compile_int4 : Node → Result CompileError Expr
  compile_int4 node =
      if supports_int4 node 0 then compile_value empty_expr node else err unsupported_value

  unfoldable pub compile_sides : Node → ℕ × Int4Op → Result CompileError Expr
  compile_sides (op2 f type left right) (value_arg, op) =
      compile_value
        (record empty_expr { comparison = some (op, (if value_arg == 0 then right else left)) })
        (if value_arg == 0 then left else right)
  compile_sides _ found = err unsupported_filter

  -- With `filter` true: pg_batch_expr_compile_filter
  unfoldable pub compile_filter : Node → Result CompileError Expr
  unfolding compile_sides
  compile_filter node = elim (analyze_filter node 0) [
    | none ↦ err unsupported_filter
    | some found ↦ compile_sides (strip_relabel node) found
  ]
