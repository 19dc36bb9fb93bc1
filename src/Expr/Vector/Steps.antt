-- ===== src/Expr/Vector/Steps.antt =====
-- expr/expr.c: the loop over the steps computes every selected row as the chain of steps on that row
-- alone does.
use pg_batch.Prelude.{
  ℕ, zero, suc, ◌+◌, ◌*◌, ◌/◌, ◌%◌, ◌^◌, ◌≤◌, ◌<◌, ◌≡◌, refl, ap, sym, ◌∙◌, inl, inr, Bool, true,
  false, not, List, [], ◌∷◌, Option, none, some, arith, length, get_or, ltb, ◌==◌, if◌then◌else◌,
  Bool-cases,
}
use pg_batch.Prelude.Int.{ℤ, pos}
use pg_batch.Prelude.Result.{Result, ok, err, ◌>>=◌, Result-cases}
use pg_batch.Bits.{Word, test_bit, is_zero, lowest}
use pg_batch.Bits.Laws.{test_bit-is_zero}
use pg_batch.Batch.Selection.Next.{lowest_on, lowest-lt}
use pg_batch.Postgres.{PgBitutils, PgInt}
use pg_batch.Batch.Selection.{Selection, IsWellFormed, contains, word_at}
use pg_batch.Batch.Selection.Rows.{contains-test_bit}
use pg_batch.Kernels.Vector.{Int4Vector}
use pg_batch.Kernels.Arithmetic.{ArithmeticError, Output, arithmetic_scalar}
use pg_batch.Kernels.Arithmetic.Cells.{
  cell, as_column, HasRoom, clear-HasRoom, cell-clear, KeepsRoom,
}
use pg_batch.Kernels.Arithmetic.Rows.{
  op_cell, MeetsRows, arithmetic_scalar-MeetsRows, arithmetic_scalar-KeepsRoom,
}
use pg_batch.Expr.Nodes.{Node}
use pg_batch.Expr.Compile.{Step}
use pg_batch.Expr.Vector.{has_rows, any_word, eval_scalar, run_step, run_steps}

-- A result with the kind of its error forgotten: `none` is an error.
abbrev pub outcome {ℓ} : {A : Type ℓ} → Result ArithmeticError A → Option A
outcome (ok a) = some a
outcome (err e) = none

abbrev pub and_then {ℓ κ} : {A : Type ℓ} {B : Type κ} → Option A → (A → Option B) → Option B
and_then none f = none
and_then (some a) f = f a

module _ ⦃int : PgInt⦄ (exec_eval : Node → Result ArithmeticError (Option ℤ)) where
  abbrev pub scalar_outcome : Option Node → Option (Option ℤ)
  scalar_outcome none = some (some (pos 0))
  scalar_outcome (some node) = outcome (exec_eval node)

  -- One step on one cell: a null scalar gives null.
  abbrev pub apply_step : Step → Option ℤ → Option ℤ → Option (Option ℤ)
  apply_step step a none = some none
  apply_step step a (some v) = outcome (op_cell step.op v step.scalar_on_left a)

  abbrev pub step_cell : Step → Option ℤ → Option (Option ℤ)
  step_cell step a = and_then (scalar_outcome step.scalar) (apply_step step a)

  -- The chain of steps on one cell; `none` is an error.
  unfoldable pub steps_cell : List Step → Option ℤ → Option (Option ℤ)
  steps_cell [] a = some a
  steps_cell (step ∷ rest) a = and_then (step_cell step a) (steps_cell rest)

-- A batch has rows exactly if one is selected.
any_word-none :
    (ws : List Word) (k i : ℕ) → any_word ws ≡ false → test_bit (get_or ws k []) i ≡ false
unfolding any_word
any_word-none [] k i h = refl
any_word-none (w ∷ ws) k i h = elim (Bool-cases (is_zero w)) [
  | inl z ↦ by_index k z (λ j. any_word-none ws j i (ground (arith, z, h)))
  | inr z ↦ absurd (ground (arith, z, h))
]
  where
    by_index :
        (k : ℕ)
        → is_zero w ≡ true
        → ((j : ℕ) → test_bit (get_or ws j []) i ≡ false)
        → test_bit (get_or (w ∷ ws) k []) i ≡ false
    by_index zero z rest = test_bit-is_zero w i z
    by_index (suc k) z rest = rest k

any_word-some :
    (ws : List Word)
    → any_word ws ≡ true
    → (k : ℕ) × (k < length ws) × (is_zero (get_or ws k []) ≡ false)
unfolding any_word
any_word-some [] h = absurd (ground (arith, h))
any_word-some (w ∷ ws) h = elim (Bool-cases (is_zero w)) [
  | inl z ↦ let (k, b, n) = any_word-some ws (ground (arith, z, h)) in (suc k, omega arith, n)
  | inr z ↦ (0, omega arith, z)
]

has_rows-any_word : (s : Selection) → has_rows s ≡ any_word s.words
unfolding has_rows any_word
has_rows-any_word s = by_words s.words
  where
    by_words :
        (ws : List Word)
        → (if length ws == 1 then not (is_zero (get_or ws 0 [])) else any_word ws) ≡ any_word ws
    by_words [] = ground arith
    by_words (w ∷ []) = ground arith
    by_words (w ∷ x ∷ ws) = ground arith

pub contains-has_rows : (s : Selection) (row : ℕ) → contains s row ≡ true → has_rows s ≡ true
contains-has_rows s row on = elim (Bool-cases (has_rows s)) [
  | inl h ↦ h
  | inr h ↦
      let off = any_word-none s.words (row / 64) (row % 64) (sym (has_rows-any_word s) ∙ h) in
      let c = contains-test_bit s row in absurd (ground (arith, on, c, off))
]

pub first_row :
    (s : Selection)
    → IsWellFormed s
    → has_rows s ≡ true
    → (row : ℕ) × (row < s.nrows) × (contains s row ≡ true)
first_row s v h =
    let (k, b, n) = any_word-some s.words (sym (has_rows-any_word s) ∙ h) in
    let i = lowest (word_at s k) in
    let small : i < 64 = omega (arith, lowest-lt (word_at s k) n, v.widths k b) in
    let q : (k * 64 + i) / 64 ≡ k = omega arith in
    let r : (k * 64 + i) % 64 ≡ i = omega arith in
    let on : contains s (k * 64 + i) ≡ true =
      contains-test_bit s (k * 64 + i) ∙ rw (q, r) (lowest_on (word_at s k) n) in
    (k * 64 + i, inside (k * 64 + i) on, on)
  where
    inside : (row : ℕ) → contains s row ≡ true → row < s.nrows
    inside row on = elim (Bool-cases (ltb row s.nrows)) [
      | inl l ↦ ground (arith, l)
      | inr l ↦ let off = v.within row (ground (arith, l)) in absurd (ground (arith, off, on))
    ]

-- Room for the steps: the second buffer is used from the second step on.
pub record StepsRoom (nrows : ℕ) (steps : List Step) (out other : Output) : Type 0 where
  pub first : 1 ≤ length steps → HasRoom nrows out
  pub second : 2 ≤ length steps → HasRoom nrows other

module _ ⦃int : PgInt⦄ ⦃pg : PgBitutils⦄ (exec_eval : Node → Result ArithmeticError (Option ℤ))
    (s : Selection) (v : IsWellFormed s) (small : s.nrows ≤ 2 ^ 31) where
  eval_scalar-outcome :
      (scalar : Option Node) (row : ℕ)
      → contains s row ≡ true
      → outcome (eval_scalar exec_eval s scalar) ≡ scalar_outcome exec_eval scalar
  unfolding eval_scalar
  eval_scalar-outcome none row on = refl
  eval_scalar-outcome (some node) row on = rw (contains-has_rows s row on)

  eval_scalar-fails :
      (scalar : Option Node) (x : ArithmeticError)
      → eval_scalar exec_eval s scalar ≡ err x
      → (row : ℕ) × (row < s.nrows) × (contains s row ≡ true)
  unfolding eval_scalar
  eval_scalar-fails none x e = absurd (ground (arith, e))
  eval_scalar-fails (some node) x e = by_rows (has_rows s) (first_row s v) e
    where
      by_rows :
          (b : Bool)
          → (b ≡ true → (row : ℕ) × (row < s.nrows) × (contains s row ≡ true))
          → (if b then exec_eval node else ok (some (pos 0))) ≡ err x
          → (row : ℕ) × (row < s.nrows) × (contains s row ≡ true)
      by_rows true found e = found refl
      by_rows false found e = absurd (ground (arith, e))

  -- What a column is promised to hold after some work on the cells of the selected rows.
  abbrev pub Holds :
      (ℕ → Option (Option ℤ)) → Result ArithmeticError (Int4Vector × Output × Output) → Type 0
  Holds cells (ok r) =
      (row : ℕ) → row < s.nrows → contains s row ≡ true → cells row ≡ some (cell r.0 row)
  Holds cells (err x) = (row : ℕ) × (row < s.nrows) × (contains s row ≡ true) × (cells row ≡ none)

  abbrev HoldsOutput : (ℕ → Option (Option ℤ)) → Result ArithmeticError Output → Type 0
  HoldsOutput cells (ok out) =
      HasRoom s.nrows out
      × ((row : ℕ)
          → row < s.nrows
          → contains s row ≡ true
          → cells row ≡ some (cell (as_column out) row))
  HoldsOutput cells (err x) =
      (row : ℕ) × (row < s.nrows) × (contains s row ≡ true) × (cells row ≡ none)

  run_step-Holds :
      (step : Step) (input : Int4Vector) (out : Output) (scalar : Option ℤ)
      → HasRoom s.nrows out
      → HoldsOutput
          (λ row. apply_step exec_eval step (cell input row) scalar)
          (run_step exec_eval s step input out scalar)
  unfolding run_step
  run_step-Holds step input out none room = (
    clear-HasRoom s.nrows out room,
    λ row h on. ap some (sym (cell-clear s.nrows row out small h)),
  )
  run_step-Holds step input out (some a) room =
      by_result (arithmetic_scalar input step.op a step.scalar_on_left s out)
        (arithmetic_scalar-MeetsRows input step.op a step.scalar_on_left s out v small room)
        (arithmetic_scalar-KeepsRoom input step.op a step.scalar_on_left s out v small room)
    where
      by_result :
          (r : Result ArithmeticError Output)
          → MeetsRows input step.op a step.scalar_on_left s r
          → KeepsRoom s.nrows r
          → HoldsOutput (λ row. apply_step exec_eval step (cell input row) (some a)) r
      by_result (ok written) m k = (k, λ row h on. ap outcome ((m row h).0 on))
      by_result (err x) (row, h, on, e) k = (row, h, on, ap outcome e)

  -- On the selected rows the loop computes the chain of steps of each row alone; if it raises an error,
  -- so does the chain of some selected row.
  pub run_steps-Holds :
      (steps : List Step) (input : Int4Vector) (out other : Output)
      → StepsRoom s.nrows steps out other
      → Holds
          (λ row. steps_cell exec_eval steps (cell input row))
          (run_steps exec_eval s steps input out other)
  unfolding run_steps steps_cell
  run_steps-Holds [] input out other room = λ row h on. refl
  run_steps-Holds (step ∷ rest) input out other room =
      elim (Result-cases (eval_scalar exec_eval s step.scalar)) [
        | inl (a, e) ↦ rw e (
            after_step (run_step exec_eval s step input out a) a e
              (run_step-Holds step input out a (room.first (omega arith)))
              (λ written room'. run_steps-Holds rest (as_column written) other written room'))
        | inr (x, e) ↦ rw e (
            let (row, h, on) = eval_scalar-fails step.scalar x e in
            (row, h, on, rw (← eval_scalar-outcome step.scalar row on, e)))
      ]
    where
      by_rest :
          (written : Output) (r : Result ArithmeticError (Int4Vector × Output × Output))
          (a : Option ℤ)
          → eval_scalar exec_eval s step.scalar ≡ ok a
          → HoldsOutput (λ row. apply_step exec_eval step (cell input row) a) (ok written)
          → Holds (λ row. steps_cell exec_eval rest (cell (as_column written) row)) r
          → Holds
              (λ row. steps_cell exec_eval (step ∷ rest) (cell input row))
              (r >>= λ t. ok (t.0, t.2, t.1))
      by_rest written (ok t) a e (k, m) held =
          λ row h on. rw (← eval_scalar-outcome step.scalar row on, e, m row h on) (held row h on)
      by_rest written (err x) a e (k, m) (row, h, on, f) =
          (row, h, on, rw (← eval_scalar-outcome step.scalar row on, e, m row h on) f)

      after_step :
          (r : Result ArithmeticError Output) (a : Option ℤ)
          → eval_scalar exec_eval s step.scalar ≡ ok a
          → HoldsOutput (λ row. apply_step exec_eval step (cell input row) a) r
          → ((written : Output)
              → StepsRoom s.nrows rest other written
              → Holds
                  (λ row. steps_cell exec_eval rest (cell (as_column written) row))
                  (run_steps exec_eval s rest (as_column written) other written))
          → Holds
              (λ row. steps_cell exec_eval (step ∷ rest) (cell input row))
              (r >>= λ written.
                run_steps exec_eval s rest (as_column written) other written >>= λ t.
                ok (t.0, t.2, t.1))
      after_step (ok written) a e held ih =
          by_rest written (run_steps exec_eval s rest (as_column written) other written) a e held
            (ih written (record { first = λ n. room.second (omega arith); second = λ n. held.0 }))
      after_step (err x) a e (row, h, on, f) ih =
          (row, h, on, rw (← eval_scalar-outcome step.scalar row on, e, f))
