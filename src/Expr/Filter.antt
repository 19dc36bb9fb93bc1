-- ===== src/Expr/Filter.antt =====
-- expr/expr.c: pg_batch_expr_apply_filter.
pub mod Meaning
pub mod Rows
use pg_batch.Prelude.{ℕ, Bool, not, List, map, Option, none, some, if◌then◌else◌}
use pg_batch.Prelude.Int.{ℤ}
use pg_batch.Prelude.Result.{Result, ok, err, ◌>>=◌}
use pg_batch.Bits.{Word, zeros}
use pg_batch.Postgres.{PgBitutils, PgInt}
use pg_batch.Batch.Selection.{Selection}
use pg_batch.Kernels.Vector.{Int4Vector}
use pg_batch.Kernels.Compare.{Int4Op}
use pg_batch.Kernels.Filter.{Sse2, filter_int4}
use pg_batch.Kernels.Arithmetic.{ArithmeticError}
use pg_batch.Expr.Nodes.{Node}
use pg_batch.Expr.Compile.{Expr}
use pg_batch.Expr.Vector.{Buffers, has_rows, get_int4}

-- The elog of the function, and the errors of the evaluations.
pub data FilterError : Type 0 where
  not_a_filter : FilterError
  raised : ArithmeticError → FilterError

abbrev pub or_raised : {A : Type 0} → Result ArithmeticError A → Result FilterError A
or_raised (ok a) = ok a
or_raised (err x) = err (raised x)

-- MemSet(selection.words, 0, …)
abbrev pub clear_all : Selection → Selection
clear_all s = record s { words = map (λ w. zeros 64) s.words }

module _ ⦃int : PgInt⦄ ⦃pg : PgBitutils⦄ (sse : Sse2) (available enable_simd : Bool)
    (exec_eval : Node → Result ArithmeticError (Option ℤ)) (s : Selection)
    (columns : ℕ → Int4Vector) where
  -- A null scalar clears the selection.
  select_by : Int4Vector → Int4Op → Option ℤ → Selection
  select_by value op none = clear_all s
  select_by value op (some scalar) = filter_int4 sse available value s op scalar enable_simd

  -- The part for a batch with rows.
  filter_rows : Expr → Buffers → Int4Op → Node → Result FilterError Selection
  unfolding select_by
  filter_rows e b op scalar = or_raised (get_int4 exec_eval s columns e b) >>= λ r.
      or_raised (exec_eval scalar) >>= λ v. ok (select_by r.0 op v)

  pub apply_filter : Expr → Buffers → Result FilterError Selection
  unfolding filter_rows
  apply_filter e b = elim e.comparison [
    | none ↦ err not_a_filter
    | some (op, scalar) ↦ if not (has_rows s) then ok s else filter_rows e b op scalar
  ]
