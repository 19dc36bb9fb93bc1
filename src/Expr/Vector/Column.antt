-- ===== src/Expr/Vector/Column.antt =====
-- expr/expr.c: pg_batch_expr_get_int4 for an expression on a column.
use pg_batch.Prelude.{
  ℕ, suc, ◌+◌, ◌-◌, ◌/◌, ◌^◌, ◌≤◌, ◌<◌, ◌≡◌, inl, inr, true, List, [], ◌∷◌, Option, none, some,
  arith, length, replicate, ltb, leb, if◌then◌else◌, Bool-cases, length-append, length-replicate,
}
use pg_batch.Prelude.Int.{ℤ, pos}
use pg_batch.Prelude.Result.{Result, ok, err, ◌>>=◌}
use pg_batch.Bits.{zeros}
use pg_batch.Postgres.{PgBitutils, PgInt}
use pg_batch.Batch.Selection.{Selection, IsWellFormed, contains}
use pg_batch.Kernels.Vector.{Int4Vector}
use pg_batch.Kernels.Arithmetic.{ArithmeticError, Output}
use pg_batch.Kernels.Arithmetic.Cells.{cell, HasRoom}
use pg_batch.Expr.Nodes.{Node}
use pg_batch.Expr.Compile.{Step, Expr}
use pg_batch.Expr.Vector.{Buffers, grow, ensure_capacity, get_int4, column_of}
use pg_batch.Expr.Vector.Steps.{steps_cell, StepsRoom, Holds, run_steps-Holds}

-- The buffers hold as many rows as `capacity` tells; the second one only where it is used.
pub record BuffersRoom (nsteps : ℕ) (b : Buffers) : Type 0 where
  pub first : HasRoom b.capacity b.first
  pub second : 2 ≤ nsteps → HasRoom b.capacity b.second

grow-HasRoom : (nrows : ℕ) (out : Output) → HasRoom nrows (grow nrows out)
unfolding grow
grow-HasRoom nrows out = record {
  values = omega (
    arith,
    length-append out.values (replicate (nrows - length out.values) (pos 0)),
    length-replicate (nrows - length out.values) (pos 0),
  );
  validity = omega (
    arith,
    length-append out.validity (replicate ((nrows + 7) / 8 - length out.validity) (zeros 8)),
    length-replicate ((nrows + 7) / 8 - length out.validity) (zeros 8),
  );
}

smaller : (n m : ℕ) (out : Output) → n ≤ m → HasRoom m out → HasRoom n out
smaller n m out h room = record {
  values = omega (arith, room.values);
  validity = omega (arith, room.validity);
}

-- With its capacity ensured, the buffers have room for the steps.
ensure_capacity-StepsRoom :
    (nrows : ℕ) (steps : List Step) (b : Buffers)
    → BuffersRoom (length steps) b
    → StepsRoom nrows steps
        (ensure_capacity nrows (length steps) b).first
        (ensure_capacity nrows (length steps) b).second
unfolding ensure_capacity
ensure_capacity-StepsRoom nrows steps b room = elim (Bool-cases (leb nrows b.capacity)) [
  | inl enough ↦ rw enough (record {
    first = λ n. smaller nrows b.capacity b.first (ground (arith, enough)) room.first;
    second = λ n. smaller nrows b.capacity b.second (ground (arith, enough)) (room.second n);
  })
  | inr short ↦ rw short (record {
    first = λ n. grow-HasRoom nrows b.first;
    second = λ n.
        let two : ltb 1 (length steps) ≡ true = ground (arith, n) in
        rw two (grow-HasRoom nrows b.second);
  })
]

module _ ⦃int : PgInt⦄ ⦃pg : PgBitutils⦄ (exec_eval : Node → Result ArithmeticError (Option ℤ))
    (s : Selection) (v : IsWellFormed s) (small : s.nrows ≤ 2 ^ 31) (columns : ℕ → Int4Vector) where
  -- The vector that is given holds the cells of the selected rows, and an error is one of a selected row.
  abbrev pub HoldsVector :
      (ℕ → Option (Option ℤ)) → Result ArithmeticError (Int4Vector × Buffers) → Type 0
  HoldsVector cells (ok r) =
      (row : ℕ) → row < s.nrows → contains s row ≡ true → cells row ≡ some (cell r.0 row)
  HoldsVector cells (err x) =
      (row : ℕ) × (row < s.nrows) × (contains s row ≡ true) × (cells row ≡ none)

  from_steps :
      (cells : ℕ → Option (Option ℤ)) (r : Result ArithmeticError (Int4Vector × Output × Output))
      (f : Int4Vector × Output × Output → Buffers)
      → Holds exec_eval s v small cells r
      → HoldsVector cells (r >>= λ t. ok (t.0, f t))
  from_steps cells (ok t) f h = h
  from_steps cells (err x) f h = h

  -- The buffers that the loop is given.
  used : List Step → Buffers → Buffers
  used steps b = if ltb 0 (length steps) then ensure_capacity s.nrows (length steps) b else b

  used-StepsRoom :
      (steps : List Step) (b : Buffers)
      → BuffersRoom (length steps) b
      → StepsRoom s.nrows steps (used steps b).first (used steps b).second
  unfolding used
  used-StepsRoom [] b room = record {
    first = λ n. absurd (omega arith);
    second = λ n. absurd (omega arith);
  }
  used-StepsRoom (step ∷ rest) b room =
      let some_steps : ltb 0 (suc (length rest)) ≡ true = ground arith in
      rw some_steps (ensure_capacity-StepsRoom s.nrows (step ∷ rest) b room)

  pub get_int4-HoldsVector :
      (e : Expr) (b : Buffers) (column : ℕ)
      → BuffersRoom (length e.steps) b
      → HoldsVector
          (λ row. steps_cell exec_eval e.steps (cell (columns column) row))
          (get_int4 exec_eval s columns
            (record e { column = some column; scalar_value = none })
            (record b { result = none }))
  unfolding get_int4 column_of used
  get_int4-HoldsVector e b column room =
      from_steps (λ row. steps_cell exec_eval e.steps (cell (columns column) row)) _ _
        (run_steps-Holds exec_eval s v small e.steps (columns column) _ _ (
          used-StepsRoom e.steps (record b { result = none })
            (record { first = room.first; second = room.second })))
