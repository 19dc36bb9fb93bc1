-- ===== src/Expr/Sql.antt =====
-- What an expression of the grammar means in SQL, row by row and without batches, and that a compiled
-- one (expr/expr.c) computes it. `none` is an error; of a null the value is `none`.
pub mod Compiled
pub mod Meaning
use pg_batch.Prelude.{
  ℕ, zero, suc, ◌≡◌, refl, ap, Bool, true, false, Option, none, some, if◌then◌else◌,
}
use pg_batch.Prelude.Int.{ℤ, pos}
use pg_batch.Prelude.Result.{Result, ok, err, ◌>>=◌}
use pg_batch.Postgres.{PgInt}
use pg_batch.Kernels.Compare.{
  Funcid, int4pl, int4mi, int4mul, int4div, int4mod, int4um, call_compare,
}
use pg_batch.Kernels.Arithmetic.{
  ArithmeticOp, ArithmeticError, add, subtract, multiply, divide, modulo, negate, int4_arithmetic,
}
use pg_batch.Expr.Nodes.{
  Node, Var, TypeOid, ParamKind, relabel, var, const, param, op1, op2, op_n, other_node,
  strip_relabel, analyze_value, is_bool,
}
use pg_batch.Expr.Vector.Steps.{outcome, and_then}

module _ ⦃int : PgInt⦄ where
  -- The functions of the operators on values that are not null.
  abbrev pub call1 : Funcid → ℤ → Option ℤ
  call1 int4um a = outcome (int4_arithmetic a (pos 0) negate)
  call1 _ a = none

  abbrev pub call2 : Funcid → ℤ → ℤ → Option ℤ
  call2 int4pl a b = outcome (int4_arithmetic a b add)
  call2 int4mi a b = outcome (int4_arithmetic a b subtract)
  call2 int4mul a b = outcome (int4_arithmetic a b multiply)
  call2 int4div a b = outcome (int4_arithmetic a b divide)
  call2 int4mod a b = outcome (int4_arithmetic a b modulo)
  call2 _ a b = none

  -- They are strict.
  abbrev pub strict1 : Funcid → Option ℤ → Option (Option ℤ)
  strict1 f none = some none
  strict1 f (some a) = and_then (call1 f a) (λ r. some (some r))

  abbrev pub strict2 : Funcid → Option ℤ → Option ℤ → Option (Option ℤ)
  strict2 f (some a) (some b) = and_then (call2 f a b) (λ r. some (some r))
  strict2 f _ _ = some none

  module _ (param_value : ParamKind → ℕ → Option ℤ) where
    -- The value of a node at a row that holds `lookup v` for a Var.
    unfoldable pub evaluate : (Var → Option ℤ) → Node → Option (Option ℤ)
    evaluate lookup (relabel arg) = evaluate lookup arg
    evaluate lookup (var v) = some (lookup v)
    evaluate lookup (const type value) = some value
    evaluate lookup (param type kind id) = some (param_value kind id)
    evaluate lookup (op1 f type arg) = and_then (evaluate lookup arg) (strict1 f)
    evaluate lookup (op2 f type left right) =
        let r = evaluate lookup right in
        and_then (evaluate lookup left) (λ a. and_then r (λ b. strict2 f a b))
    evaluate lookup (op_n f type n) = none
    evaluate lookup (other_node n) = none

    -- A comparison: its outcome is an error, null, or a Boolean.
    abbrev pub compare_values : Funcid → Option ℤ → Option ℤ → Option (Option Bool)
    compare_values f (some a) (some b) = some (call_compare f a b)
    compare_values f _ _ = some none

    abbrev pub evaluate_stripped : (Var → Option ℤ) → Node → Option (Option Bool)
    evaluate_stripped lookup (op2 f type left right) =
        and_then (evaluate lookup left)
          (λ a. and_then (evaluate lookup right) (λ b. compare_values f a b))
    evaluate_stripped lookup _ = none

    abbrev pub evaluate_filter : (Var → Option ℤ) → Node → Option (Option Bool)
    evaluate_filter lookup node = evaluate_stripped lookup (strip_relabel node)

    -- What the code relies on of ExecEvalExpr: for an expression without a Var it gives the value.
    abbrev pub EvaluatesScalars : (Node → Result ArithmeticError (Option ℤ)) → Type 0
    EvaluatesScalars exec_eval =
        (node : Node) (lookup : Var → Option ℤ)
        → analyze_value node 0 ≡ some 0
        → outcome (exec_eval node) ≡ evaluate lookup node
