-- ===== src/Expr/Vector.antt =====
-- expr/expr.c and include/pg_batch/runtime.h: a compiled expression evaluated over a batch.
-- A bound batch is its selection and its columns, arguments here. ExecEvalExpr is PostgreSQL's.
pub mod Steps
pub mod Column
use pg_batch.Prelude.{
  ℕ, zero, suc, ◌+◌, ◌-◌, ◌*◌, ◌/◌, ◌≤◌, Bool, true, false, not, List, [], ◌∷◌, ◌++◌, Option, none,
  some, length, drop, set, replicate, leb, ltb, ◌==◌, if◌then◌else◌, foldl,
}
use pg_batch.Prelude.Int.{ℤ, pos}
use pg_batch.Prelude.Result.{Result, ok, err, ◌>>=◌}
use pg_batch.Bits.{Word, is_zero, bit_and, zeros}
use pg_batch.Bits.Ones.{set_bits_decrement}
use pg_batch.Postgres.{PgBitutils, PgInt}
use pg_batch.Batch.Selection.{Selection, nwords, word_at}
use pg_batch.Kernels.Vector.{Int4Vector}
use pg_batch.Kernels.Mask.{word_mask}
use pg_batch.Kernels.Filter.{Sse2, filter_int4}
use pg_batch.Kernels.Arithmetic.{ArithmeticError, Output, arithmetic_scalar, clear_bytes, set_valid}
use pg_batch.Kernels.Arithmetic.Cells.{as_column}
use pg_batch.Expr.Nodes.{Node}
use pg_batch.Expr.Compile.{Step, Expr}

any_word : List Word → Bool
any_word [] = false
any_word (w ∷ ws) = if not (is_zero w) then true else any_word ws

-- pg_batch_has_rows
pub has_rows : Selection → Bool
unfolding any_word
has_rows s = if nwords s == 1 then not (is_zero (word_at s 0)) else any_word s.words

-- The two buffers, and the cached result of the bound batch (`result_ready`).
pub record Buffers : Type 0 where
  pub capacity : ℕ
  pub first : Output
  pub second : Output
  pub result : Option Int4Vector

-- pg_batch_expr_bind: the batch is an argument of the evaluation; a cached result is dropped.
unfoldable pub bind : Buffers → Buffers
bind b = record b { result = none }

-- Memory for `nrows` rows: what was there stays, and the rest of the validity map is clear.
grow : ℕ → Output → Output
grow nrows out = record {
  values = out.values ++ replicate (nrows - length out.values) (pos 0);
  validity = out.validity ++ replicate ((nrows + 7) / 8 - length out.validity) (zeros 8);
}

pub ensure_capacity : ℕ → ℕ → Buffers → Buffers
unfolding grow
ensure_capacity nrows nsteps b = if leb nrows b.capacity then b else record b {
  capacity = nrows;
  first = grow nrows b.first;
  second = if ltb 1 nsteps then grow nrows b.second else b.second;
}

module _ ⦃int : PgInt⦄ ⦃pg : PgBitutils⦄ (exec_eval : Node → Result ArithmeticError (Option ℤ))
    (s : Selection) where
  -- A scalar is evaluated only if the batch has rows; a step without one has zero.
  eval_scalar : Option Node → Result ArithmeticError (Option ℤ)
  eval_scalar none = ok (some (pos 0))
  eval_scalar (some node) = if has_rows s then exec_eval node else ok (some (pos 0))

  -- The loop's body after the scalar is known: a null one clears the validity map.
  run_step : Step → Int4Vector → Output → Option ℤ → Result ArithmeticError Output
  run_step step input out none =
      ok (record out { validity = clear_bytes out.validity ((s.nrows + 7) / 8) })
  run_step step input out (some v) = arithmetic_scalar input step.op v step.scalar_on_left s out

  -- The loop over the steps, with the buffer to be written first: `buffer = 1 - buffer` swaps them for
  -- the steps that follow. The buffers are given back in the order in which they came.
  pub run_steps :
      List Step
      → Int4Vector
      → Output
      → Output
      → Result ArithmeticError (Int4Vector × Output × Output)
  unfolding eval_scalar run_step
  run_steps [] input out other = ok (input, out, other)
  run_steps (step ∷ rest) input out other = eval_scalar step.scalar >>= λ v.
      run_step step input out v >>= λ written.
      run_steps rest (as_column written) other written >>= λ r. ok (r.0, r.2, r.1)

  -- The body of the loop over the rows of one word in build_scalar_vector.
  fill_word : ℕ → Word → ℤ → Output → Output
  fill_word word w value out =
      foldl
        (λ o bitno. record {
          values = set o.values (word * 64 + bitno) value;
          validity = set_valid o.validity (word * 64 + bitno);
        })
        out (set_bits_decrement (bit_and w (word_mask s.nrows word)))

  fill_words : ℕ → List Word → ℤ → Output → Output
  fill_words word [] value out = out
  fill_words word (w ∷ ws) value out = fill_words (word + 1) ws value (fill_word word w value out)

  fill_scalar : Option ℤ → Output → Output
  fill_scalar none out = out
  fill_scalar (some value) out = fill_words 0 s.words value out

  pub build_scalar_vector : Node → Output → Result ArithmeticError Output
  unfolding fill_word fill_words fill_scalar
  build_scalar_vector node out =
      let empty : Output = record out { validity = clear_bytes out.validity ((s.nrows + 7) / 8) } in
      if has_rows s then (exec_eval node >>= λ v. ok (fill_scalar v empty)) else ok empty

  -- The columns of the batch, as pg_batch_column_get_int4 gives them.
  module _ (columns : ℕ → Int4Vector) where
    column_of : Option ℕ → Int4Vector
    column_of none = columns 0
    column_of (some column) = columns column

    -- pg_batch_expr_get_int4
    pub get_int4 : Expr → Buffers → Result ArithmeticError (Int4Vector × Buffers)
    unfolding column_of
    get_int4 e b =
        let grown = ensure_capacity s.nrows (length e.steps) b in
        let used = if ltb 0 (length e.steps) then grown else b in
        let from_column = run_steps e.steps (column_of e.column) used.first used.second >>= λ r.
        ok (r.0, record used { first = r.1; second = r.2; result = some r.0 }) in
        elim b.result [
          | some result ↦ ok (result, b)
          | none ↦ elim e.scalar_value [
            | none ↦ from_column
            | some node ↦ build_scalar_vector node grown.first >>= λ out.
                run_steps e.steps (as_column out) out grown.second >>= λ r.
                ok (r.0, record grown { first = r.1; second = r.2; result = some r.0 })
          ]
        ]
