-- ===== src/Expr/Sql/Compiled.antt =====
-- expr/expr.c: the column and the steps that compile_value finds compute the node at every row.
use pg_batch.Prelude.{
  ℕ, ◌+◌, ◌≡◌, ◌⊎◌, inl, inr, refl, ap, sym, ◌∙◌, Bool, true, false, ◌&&◌, List, [], ◌∷◌, ◌++◌,
  Option, none, some, arith, ◌==◌, if◌then◌else◌, Bool-cases,
}
use pg_batch.Prelude.Int.{ℤ, pos}
use pg_batch.Prelude.Result.{Result, ok, err, ◌>>=◌}
use pg_batch.Postgres.{PgInt}
use pg_batch.Kernels.Compare.{Funcid, int4pl, int4mi, int4mul, int4div, int4mod, int4um}
use pg_batch.Kernels.Arithmetic.{ArithmeticOp, ArithmeticError, int4_arithmetic}
use pg_batch.Expr.Nodes.{Node, arithmetic_op, add_vars}
use pg_batch.Expr.Compile.{Step}
use pg_batch.Expr.Vector.Steps.{outcome, and_then, apply_step, step_cell, steps_cell}
use pg_batch.Expr.Sql.{call1, call2, strict1, strict2}

-- What the analysis of an operator with a Var says of its arguments.
pub op2-arguments :
    (typed arithmetic : Bool) (l r : Option ℕ)
    → (if typed && arithmetic then add_vars (add_vars (some 0) l) r else none) ≡ some 1
    → (arithmetic ≡ true) × (((l ≡ some 1) × (r ≡ some 0)) ⊎ ((l ≡ some 0) × (r ≡ some 1)))
op2-arguments false arithmetic l r h = absurd (ground (arith, h))
op2-arguments true false l r h = absurd (ground (arith, h))
op2-arguments true true none r h = absurd (ground (arith, h))
op2-arguments true true (some l) none h = absurd (ground (arith, h))
op2-arguments true true (some l) (some r) h =
    let sum : l + r ≡ 1 = ground (arith, h) in
    (
      refl,
      elim (Bool-cases (l == 1)) [
        | inl e ↦ inl (ap some (ground arith), ap some (ground arith))
        | inr n ↦ inr (ap some (ground arith), ap some (ground arith))
      ],
    )

pub op1-argument :
    (typed arithmetic : Bool) (a : Option ℕ)
    → (if typed && arithmetic then add_vars (some 0) a else none) ≡ some 1
    → (arithmetic ≡ true) × (a ≡ some 1)
op1-argument false arithmetic a h = absurd (ground (arith, h))
op1-argument true false a h = absurd (ground (arith, h))
op1-argument true true none h = absurd (ground (arith, h))
op1-argument true true (some a) h = (refl, ap some (ground (arith, h)))

module _ ⦃int : PgInt⦄ where
  -- The operation that a function stands for, if any.
  run_op : Option ArithmeticOp → ℤ → ℤ → Option ℤ
  run_op none a b = none
  run_op (some op) a b = outcome (int4_arithmetic a b op)

  call2-run_op : (f : Funcid) (a b : ℤ) → call2 f a b ≡ run_op (arithmetic_op f 2) a b
  unfolding run_op arithmetic_op
  call2-run_op int4pl a b = refl
  call2-run_op int4mi a b = refl
  call2-run_op int4mul a b = refl
  call2-run_op int4div a b = refl
  call2-run_op int4mod a b = refl
  call2-run_op _ a b = refl

  call1-run_op : (f : Funcid) (a : ℤ) → call1 f a ≡ run_op (arithmetic_op f 1) a (pos 0)
  unfolding run_op arithmetic_op
  call1-run_op int4um a = refl
  call1-run_op _ a = refl

  outcome-some :
      (r : Result ArithmeticError ℤ)
      → outcome (r >>= λ a. ok (some a)) ≡ and_then (outcome r) (λ a. some (some a))
  outcome-some (ok a) = refl
  outcome-some (err x) = refl

  -- A step on a value does what the function does on its arguments, nulls included.
  pub step-strict2 :
      (exec_eval : Node → Result ArithmeticError (Option ℤ)) (f : Funcid) (step : Step)
      (x y : Option ℤ)
      → arithmetic_op f 2 ≡ some step.op
      → apply_step exec_eval step x y
        ≡ strict2 f (if step.scalar_on_left then y else x) (if step.scalar_on_left then x else y)
  step-strict2 exec_eval f step x y e = by_side step.scalar_on_left x y
    where
      called :
          (a b : ℤ)
          → outcome (int4_arithmetic a b step.op >>= λ r. ok (some r)) ≡ strict2 f (some a) (some b)
      called a b =
          outcome-some (int4_arithmetic a b step.op)
          ∙ ap (λ o. and_then o (λ r. some (some r)))
              (sym (call2-run_op f a b ∙ ap (λ o. run_op o a b) e ∙ unfold run_op in refl))

      by_side :
          (on_left : Bool) (x y : Option ℤ)
          → apply_step exec_eval (record step { scalar_on_left = on_left }) x y
            ≡ strict2 f (if on_left then y else x) (if on_left then x else y)
      by_side true none none = refl
      by_side true (some a) none = refl
      by_side true none (some b) = refl
      by_side true (some a) (some b) = called b a
      by_side false none none = refl
      by_side false (some a) none = refl
      by_side false none (some b) = refl
      by_side false (some a) (some b) = called a b

  pub step-strict1 :
      (exec_eval : Node → Result ArithmeticError (Option ℤ)) (f : Funcid) (step : Step)
      (x : Option ℤ)
      → step.scalar_on_left ≡ false
      → arithmetic_op f 1 ≡ some step.op
      → apply_step exec_eval step x (some (pos 0)) ≡ strict1 f x
  step-strict1 exec_eval f step none l e = refl
  step-strict1 exec_eval f step (some a) l e = rw l (
      outcome-some (int4_arithmetic a (pos 0) step.op)
      ∙ ap (λ o. and_then o (λ r. some (some r)))
          (sym (call1-run_op f a ∙ ap (λ o. run_op o a (pos 0)) e ∙ unfold run_op in refl)))

  pub steps_cell-append :
      (exec_eval : Node → Result ArithmeticError (Option ℤ)) (xs : List Step) (step : Step)
      (a : Option ℤ)
      → steps_cell exec_eval (xs ++ step ∷ []) a
        ≡ and_then (steps_cell exec_eval xs a) (step_cell exec_eval step)
  unfolding steps_cell
  steps_cell-append exec_eval [] step a = by_outcome (step_cell exec_eval step a)
    where
      by_outcome : (o : Option (Option ℤ)) → and_then o (λ b. some b) ≡ o
      by_outcome none = refl
      by_outcome (some b) = refl
  steps_cell-append exec_eval (x ∷ xs) step a =
      by_outcome (step_cell exec_eval x a) (steps_cell-append exec_eval xs step)
    where
      by_outcome :
          (o : Option (Option ℤ))
          → ((b : Option ℤ)
              → steps_cell exec_eval (xs ++ step ∷ []) b
                ≡ and_then (steps_cell exec_eval xs b) (step_cell exec_eval step))
          → and_then o (steps_cell exec_eval (xs ++ step ∷ []))
            ≡ and_then (and_then o (steps_cell exec_eval xs)) (step_cell exec_eval step)
      by_outcome none ih = refl
      by_outcome (some b) ih = ih b

  -- The order of two evaluations does not matter.
  pub and_then_swap :
      {B : Type 0} (o p : Option (Option ℤ)) (f : Option ℤ → Option ℤ → Option B)
      → and_then o (λ a. and_then p (λ b. f a b)) ≡ and_then p (λ b. and_then o (λ a. f a b))
  and_then_swap none none f = refl
  and_then_swap none (some b) f = refl
  and_then_swap (some a) none f = refl
  and_then_swap (some a) (some b) f = refl

  pub and_then_congr :
      {B : Type 0} (o : Option (Option ℤ)) (f g : Option ℤ → Option B)
      → ((a : Option ℤ) → f a ≡ g a)
      → and_then o f ≡ and_then o g
  and_then_congr none f g h = refl
  and_then_congr (some a) f g h = h a
