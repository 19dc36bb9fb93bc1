-- ===== src/Tests/Expressions.antt =====
-- The theorem on compiled filters at `column + 5 < 20`, and an ExecEvalExpr for expressions.
use pg_batch.Prelude.{
  ℕ, ◌≡◌, refl, ap, ◌∙◌, Bool, true, false, ◌&&◌, Option, none, some, [], ◌∷◌, arith, if◌then◌else◌,
}
use pg_batch.Prelude.Int.{ℤ, pos}
use pg_batch.Prelude.Result.{Result, ok, err}
use pg_batch.Kernels.Compare.{int4pl, int4lt, lt, compare_op}
use pg_batch.Kernels.Arithmetic.{ArithmeticError, out_of_range, add}
use pg_batch.Kernels.Arithmetic.Cells.{cell}
use pg_batch.Expr.Nodes.{
  Node, Var, ParamKind, int4, bool, relabel, var, const, param, op1, op2, op_n, other_node,
  analyze_value, arithmetic_op, is_int4, add_vars, analyze_filter, analyze_stripped, strip_relabel,
  valid_var, scalar_leaf,
}
use pg_batch.Expr.Compile.{
  Expr, compile_filter, compile_value, compile_sides, with_step, resolve_column,
}
use pg_batch.Expr.Vector.{Buffers, bind}
use pg_batch.Expr.Vector.Steps.{outcome, and_then}
use pg_batch.Expr.Sql.{evaluate, evaluate_filter, EvaluatesScalars, strict1}
use pg_batch.Expr.Sql.Meaning.{lookup}
use pg_batch.Expr.Filter.{apply_filter}
use pg_batch.Expr.Filter.Rows.{FiltersBy, compile_filter-FiltersBy}
use pg_batch.Tests.{bitutils, int, sse2, five, five-IsWellFormed, column}

abbrev param_value : ParamKind → ℕ → Option ℤ
param_value kind id = none

abbrev to_result : Option (Option ℤ) → Result ArithmeticError (Option ℤ)
to_result none = err out_of_range
to_result (some v) = ok v

abbrev exec_eval : Node → Result ArithmeticError (Option ℤ)
exec_eval node = to_result (evaluate param_value (λ v. none) node)

outcome-to_result : (o : Option (Option ℤ)) → outcome (to_result o) ≡ o
outcome-to_result none = refl
outcome-to_result (some v) = refl

no_var1 :
    (b c : Bool) (a : Option ℕ)
    → (if b && c then add_vars (some 0) a else none) ≡ some 0
    → a ≡ some 0
no_var1 false c a h = absurd (ground (arith, h))
no_var1 true false a h = absurd (ground (arith, h))
no_var1 true true none h = absurd (ground (arith, h))
no_var1 true true (some a) h = ap some (ground (arith, h))

no_var2 :
    (b c : Bool) (l r : Option ℕ)
    → (if b && c then add_vars (add_vars (some 0) l) r else none) ≡ some 0
    → (l ≡ some 0) × (r ≡ some 0)
no_var2 false c l r h = absurd (ground (arith, h))
no_var2 true false l r h = absurd (ground (arith, h))
no_var2 true true none r h = absurd (ground (arith, h))
no_var2 true true (some l) none h = absurd (ground (arith, h))
no_var2 true true (some l) (some r) h = (ap some (ground (arith, h)), ap some (ground (arith, h)))

-- Without a Var the row does not matter.
no_lookup :
    (node : Node) (f g : Var → Option ℤ)
    → analyze_value node 0 ≡ some 0
    → evaluate param_value f node ≡ evaluate param_value g node
unfolding evaluate analyze_value
no_lookup (relabel arg) f g h = no_lookup arg f g h
no_lookup (var v) f g h = absurd (ground (arith, h))
no_lookup (const type value) f g h = refl
no_lookup (param type kind id) f g h = refl
no_lookup (op1 c type arg) f g h =
    ap (λ o. and_then o (strict1 c)) (no_lookup arg f g (no_var1 (is_int4 type) _ _ h))
no_lookup (op2 c type left right) f g h =
    let n = no_var2 (is_int4 type) _ _ _ h in rw (no_lookup left f g n.0, no_lookup right f g n.1)
no_lookup (op_n c type n) f g h = refl
no_lookup (other_node n) f g h = refl

scalars : EvaluatesScalars param_value exec_eval
scalars node f h =
    outcome-to_result (evaluate param_value (λ v. none) node) ∙ no_lookup node (λ v. none) f h

abbrev condition : Node
condition =
    op2 int4lt bool
      (op2 int4pl int4
        (var (record {
          varno = 1;
          varattno = pos 1;
          vartype = int4;
          varlevelsup = 0;
          default_returning = true;
        }))
        (const int4 (some (pos 5))))
      (const int4 (some (pos 20)))

abbrev resolve_var : Var → Option ℕ
resolve_var v = some 0

abbrev fresh : Buffers
fresh = record {
  capacity = 0;
  first = record { values = []; validity = [] };
  second = record { values = []; validity = [] };
  result = none;
}

abbrev compiled : Expr
compiled = record {
  column = some 0;
  scalar_value = none;
  steps =
      (record { op = add; scalar = some (const int4 (some (pos 5))); scalar_on_left = false }) ∷ [];
  comparison = some (lt, const int4 (some (pos 20)));
}

condition-compiled : compile_filter resolve_var condition ≡ ok compiled
unfolding compile_filter compile_value compile_sides analyze_filter analyze_stripped analyze_value
    strip_relabel with_step resolve_column arithmetic_op valid_var scalar_leaf compare_op
condition-compiled = refl

compile_filter-FiltersBy_example :
    FiltersBy
      (λ row.
        evaluate_filter param_value
          (lookup exec_eval param_value scalars resolve_var (λ c. cell column row))
          condition)
      five
      (apply_filter sse2 true true exec_eval five (λ c. column) compiled (bind fresh))
compile_filter-FiltersBy_example =
    compile_filter-FiltersBy sse2 true true exec_eval five five-IsWellFormed (omega arith)
      (λ c. column) param_value scalars resolve_var condition compiled fresh condition-compiled
      (record {
        first = record { values = omega arith; validity = omega arith };
        second = λ n. absurd (omega arith);
      })
