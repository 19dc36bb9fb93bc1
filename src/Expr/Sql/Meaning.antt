-- ===== src/Expr/Sql/Meaning.antt =====
-- expr/expr.c: compile_value, on a node with one Var.
use pg_batch.Prelude.{
  ℕ, ◌≡◌, ◌⊎◌, inl, inr, refl, ap, sym, ◌∙◌, Bool, true, false, List, [], ◌∷◌, ◌++◌, Option, none,
  some, arith, ◌==◌, if◌then◌else◌,
}
use pg_batch.Prelude.Int.{ℤ}
use pg_batch.Prelude.Result.{Result, ok, err}
use mathlib.Core.List.{append-nil, append_assoc}
use pg_batch.Postgres.{PgInt}
use pg_batch.Kernels.Compare.{Funcid}
use pg_batch.Kernels.Arithmetic.{ArithmeticOp, ArithmeticError}
use pg_batch.Expr.Nodes.{
  Node, Var, TypeOid, ParamKind, relabel, var, const, param, op1, op2, op_n, other_node,
  arithmetic_op, analyze_value, is_int4, is_some,
}
use pg_batch.Expr.Compile.{
  Step, Expr, CompileError, compile_value, with_step, append_step, resolve_column,
  unavailable_column,
}
use pg_batch.Expr.Vector.Steps.{and_then, scalar_outcome, apply_step, step_cell, steps_cell}
use pg_batch.Expr.Sql.{strict1, strict2, evaluate, EvaluatesScalars}
use pg_batch.Expr.Sql.Compiled.{
  op1-argument, op2-arguments, step-strict1, step-strict2, steps_cell-append, and_then_swap,
  and_then_congr,
}

ok_value : {A : Type 0} → A → Result CompileError A → A
ok_value a (ok b) = b
ok_value a (err x) = a

abbrev Compiles : Result CompileError Expr → Expr → Type 0
Compiles r e = r ≡ ok e

ok_eq : {a b : Expr} → Compiles (ok a) b → a ≡ b
unfolding ok_value
ok_eq {a = a} e = ap (ok_value a) e

module _ ⦃int : PgInt⦄ (exec_eval : Node → Result ArithmeticError (Option ℤ))
    (param_value : ParamKind → ℕ → Option ℤ) (scalars : EvaluatesScalars param_value exec_eval)
    (resolve_var : Var → Option ℕ) where
  -- The Vars at a row, of which `cells` are the columns.
  abbrev pub lookup : (ℕ → Option ℤ) → Var → Option ℤ
  lookup cells v = elim (resolve_var v) [ none ↦ none | some column ↦ cells column ]

  -- A column, and steps that compute the node from a cell of it.
  pub record Compiled (e : Expr) (node : Node) (e' : Expr) : Type 0 where
    pub column : ℕ
    pub added : List Step
    pub compiled : e' ≡ record e { column = some column; steps = e.steps ++ added }
    pub meaning :
        (cells : ℕ → Option ℤ)
        → steps_cell exec_eval added (cells column) ≡ evaluate param_value (lookup cells) node

  extend :
      (e e1 e' : Expr) (arg node : Node) (step : Step)
      → Compiled e arg e1
      → Compiles (ok (append_step e1 step.op step.scalar step.scalar_on_left)) e'
      → ((cells : ℕ → Option ℤ)
          → and_then (evaluate param_value (lookup cells) arg) (step_cell exec_eval step)
            ≡ evaluate param_value (lookup cells) node)
      → Compiled e node e'
  extend e e1 e' arg node step c eq m = record {
    column = c.column;
    added = c.added ++ step ∷ [];
    compiled =
        sym (ok_eq eq)
        ∙ ap (λ x. append_step x step.op step.scalar step.scalar_on_left) c.compiled
        ∙ ap (λ l. record e { column = some c.column; steps = l })
            (append_assoc e.steps c.added (step ∷ []));
    meaning = λ cells.
        steps_cell-append exec_eval c.added step (cells c.column)
        ∙ ap (λ o. and_then o (step_cell exec_eval step)) (c.meaning cells)
        ∙ m cells;
  }

  compile-op1 :
      (e : Expr) (f : Funcid) (type : TypeOid) (arg : Node)
      → analyze_value (op1 f type arg) 0 ≡ some 1
      → compile_value resolve_var e (op1 f type arg)
        ≡ with_step resolve_var (arithmetic_op f 1) none false (compile_value resolve_var e arg)
  unfolding compile_value
  compile-op1 e f type arg h = rw (compile_value, h)

  compile-op2 :
      (e : Expr) (f : Funcid) (type : TypeOid) (left right : Node) (l : ℕ)
      → analyze_value (op2 f type left right) 0 ≡ some 1
      → analyze_value left 0 ≡ some l
      → compile_value resolve_var e (op2 f type left right) ≡ (
          if l == 1
          then with_step resolve_var
              (arithmetic_op f 2)
              (some right)
              false
              (compile_value resolve_var e left)
          else with_step resolve_var
              (arithmetic_op f 2)
              (some left)
              true
              (compile_value resolve_var e right))
  unfolding compile_value
  compile-op2 e f type left right l h hl = rw (compile_value, h, hl)

  -- The operator case, once its argument is compiled.
  from_with_step :
      (e e' : Expr) (arg node : Node) (f : Funcid) (n : ℕ) (scalar : Option Node) (on_left : Bool)
      → is_some (arithmetic_op f n) ≡ true
      → Compiles
          (with_step resolve_var
            (arithmetic_op f n)
            scalar
            on_left
            (compile_value resolve_var e arg))
          e'
      → ((e1 : Expr) → Compiles (compile_value resolve_var e arg) e1 → Compiled e arg e1)
      → ((step : Step)
          → arithmetic_op f n ≡ some step.op
          → step.scalar ≡ scalar
          → step.scalar_on_left ≡ on_left
          → (cells : ℕ → Option ℤ)
          → and_then (evaluate param_value (lookup cells) arg) (step_cell exec_eval step)
            ≡ evaluate param_value (lookup cells) node)
      → Compiled e node e'
  unfolding with_step
  from_with_step e e' arg node f n scalar on_left some_op eq ih meaning =
      by_parts (arithmetic_op f n) (compile_value resolve_var e arg) some_op eq ih refl
    where
      by_parts :
          (o : Option ArithmeticOp) (r : Result CompileError Expr)
          → is_some o ≡ true
          → Compiles (with_step resolve_var o scalar on_left r) e'
          → ((e1 : Expr) → Compiles r e1 → Compiled e arg e1)
          → arithmetic_op f n ≡ o
          → Compiled e node e'
      by_parts none r some_op eq ih o = absurd (ground (arith, some_op))
      by_parts (some op) (err x) some_op eq ih o = absurd (ground (arith, eq))
      by_parts (some op) (ok e1) some_op eq ih o =
          let step : Step = record { op = op; scalar = scalar; scalar_on_left = on_left } in
          extend e e1 e' arg node step (ih e1 refl) eq (meaning step o refl refl)

  compile_value-var :
      (e e' : Expr) (v : Var)
      → Compiles (compile_value resolve_var e (var v)) e'
      → Compiled e (var v) e'
  unfolding compile_value resolve_column evaluate steps_cell
  compile_value-var e e' v eq = by_column (resolve_var v) refl eq
    where
      by_column :
          (o : Option ℕ)
          → resolve_var v ≡ o
          → Compiles
              (elim o [
                | none ↦ err unavailable_column
                | some column ↦ ok (record e { column = some column })
              ])
              e'
          → Compiled e (var v) e'
      by_column none s eq = absurd (ground (arith, eq))
      by_column (some column) s eq = record {
        column = column;
        added = [];
        compiled =
            sym (ok_eq eq)
            ∙ ap (λ l. record e { column = some column; steps = l }) (sym (append-nil e.steps));
        meaning = λ cells. rw (lookup, s);
      }

  scalar_step :
      (step : Step) (node : Node)
      → step.scalar ≡ some node
      → analyze_value node 0 ≡ some 0
      → (cells : ℕ → Option ℤ) (a : Option ℤ)
      → step_cell exec_eval step a
        ≡ and_then (evaluate param_value (lookup cells) node) (apply_step exec_eval step a)
  scalar_step step node scalar n cells a =
      ap (λ o. and_then (scalar_outcome exec_eval o) (apply_step exec_eval step a)) scalar
      ∙ ap (λ o. and_then o (apply_step exec_eval step a)) (scalars node (lookup cells) n)

  -- A node with one Var that compiles is computed, at every row, by the column and the steps that
  -- compilation finds.
  pub compile_value-Compiled :
      (node : Node) (e e' : Expr)
      → analyze_value node 0 ≡ some 1
      → Compiles (compile_value resolve_var e node) e'
      → Compiled e node e'
  compile_value-Compiled (relabel arg) e e' h eq =
      let c =
        compile_value-Compiled arg e e' (unfold analyze_value in h) (unfold compile_value in eq) in
      record {
        column = c.column;
        added = c.added;
        compiled = c.compiled;
        meaning = λ cells. c.meaning cells ∙ unfold evaluate in refl;
      }
  compile_value-Compiled (var v) e e' h eq = compile_value-var e e' v eq
  compile_value-Compiled (const type value) e e' h eq =
      absurd (unfold analyze_value in ground (arith, h))
  compile_value-Compiled (param type kind id) e e' h eq =
      absurd (unfold analyze_value in ground (arith, h))
  compile_value-Compiled (op1 f type arg) e e' h eq =
      let args : (is_some (arithmetic_op f 1) ≡ true) × (analyze_value arg 0 ≡ some 1) =
        unfold analyze_value in
        op1-argument (is_int4 type) (is_some (arithmetic_op f 1)) (analyze_value arg 0) h in
      from_with_step e e' arg (op1 f type arg) f 1 none false args.0
        (sym (compile-op1 e f type arg h) ∙ eq) (λ e1 c. compile_value-Compiled arg e e1 args.1 c)
        (λ step op scalar side cells.
          unfold evaluate in
          and_then_congr (evaluate param_value (lookup cells) arg) (step_cell exec_eval step)
            (strict1 f)
            (λ a.
              ap (λ o. and_then (scalar_outcome exec_eval o) (apply_step exec_eval step a)) scalar
              ∙ step-strict1 exec_eval f step a side op))
  compile_value-Compiled (op2 f type left right) e e' h eq =
      let args : (is_some (arithmetic_op f 2) ≡ true)
          × (((analyze_value left 0 ≡ some 1) × (analyze_value right 0 ≡ some 0))
              ⊎ ((analyze_value left 0 ≡ some 0) × (analyze_value right 0 ≡ some 1))) =
        unfold analyze_value in
        op2-arguments (is_int4 type) (is_some (arithmetic_op f 2)) (analyze_value left 0)
          (analyze_value right 0) h in
      elim args.1 [
        | inl (l, r) ↦
            from_with_step e e' left (op2 f type left right) f 2 (some right) false args.0
              (sym (compile-op2 e f type left right 1 h l) ∙ eq)
              (λ e1 c. compile_value-Compiled left e e1 l c)
              (λ step op scalar side cells.
                unfold evaluate in
                and_then_congr (evaluate param_value (lookup cells) left) (step_cell exec_eval step)
                  _
                  (λ a.
                    scalar_step step right scalar r cells a
                    ∙ and_then_congr (evaluate param_value (lookup cells) right)
                        (apply_step exec_eval step a) _
                        (λ b.
                          step-strict2 exec_eval f step a b op
                          ∙ ap (λ d. strict2 f (if d then b else a) (if d then a else b)) side)))
        | inr (l, r) ↦
            from_with_step e e' right (op2 f type left right) f 2 (some left) true args.0
              (sym (compile-op2 e f type left right 0 h l) ∙ eq)
              (λ e1 c. compile_value-Compiled right e e1 r c)
              (λ step op scalar side cells.
                unfold evaluate in
                and_then_congr (evaluate param_value (lookup cells) right)
                  (step_cell exec_eval step) _
                  (λ a.
                    scalar_step step left scalar l cells a
                    ∙ and_then_congr (evaluate param_value (lookup cells) left)
                        (apply_step exec_eval step a) _
                        (λ b.
                          step-strict2 exec_eval f step a b op
                          ∙ ap (λ d. strict2 f (if d then b else a) (if d then a else b)) side))
                ∙ and_then_swap (evaluate param_value (lookup cells) right)
                    (evaluate param_value (lookup cells) left) (λ b a. strict2 f a b))
      ]
  compile_value-Compiled (op_n f type n) e e' h eq =
      absurd (unfold analyze_value in ground (arith, h))
  compile_value-Compiled (other_node n) e e' h eq =
      absurd (unfold analyze_value in ground (arith, h))
