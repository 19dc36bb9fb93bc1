-- ===== src/Kernels/Arithmetic/Rows.antt =====
-- kernels/int4.c: pg_batch_int4_arithmetic_scalar computes each selected row as the operation on
-- that row alone would, nulls and errors included.
use pg_batch.Prelude.{
  ℕ, ◌+◌, ◌*◌, ◌/◌, ◌%◌, ◌^◌, ◌≤◌, ◌<◌, ◌≡◌, refl, ap, sym, ◌∙◌, inl, inr, Bool, true, false, ◌||◌,
  List, [], ◌∷◌, Option, none, some, arith, get_or, set, ◌==◌, ==_iff, if◌then◌else◌, Bool-cases,
  length-set, get_or-set_self, get_or-set_ne,
}
use pg_batch.Prelude.Int.{ℤ, pos}
use pg_batch.Prelude.Result.{
  Result, ok, err, ◌>>=◌, fold_result, fold_result-append, fold_result-map, Result-cases,
}
use pg_batch.Bits.{Word, bit_and, bit_or, one_at, ones}
use pg_batch.Bits.Ones.{set_bits_decrement-ones, has, AllBelow}
use pg_batch.Postgres.{PgBitutils, PgInt}
use pg_batch.Batch.Selection.{Selection, IsWellFormed, contains}
use pg_batch.Batch.Selection.Rows.{rows, has-rows_where, rows_where-AllBelow}
use pg_batch.Kernels.Vector.{Int4Vector, row_is_null, row_value, validity_bit}
use pg_batch.Kernels.Mask.{word_mask, scan_rows, scan_rows-rows, ones-map}
use pg_batch.Kernels.Arithmetic.{
  ArithmeticOp, ArithmeticError, Output, int4_arithmetic, set_valid, clear_bytes, arithmetic_row,
  arithmetic_words, arithmetic_scalar,
}
use pg_batch.Kernels.Arithmetic.Cells.{
  cell, as_column, validity_bit-set_valid, HasRoom, cell-as_column, cleared, clear-HasRoom,
  KeepsRoom,
}

module _ ⦃int : PgInt⦄ where
  -- SQL's strict operator on one cell.
  abbrev pub op_cell : ArithmeticOp → ℤ → Bool → Option ℤ → Result ArithmeticError (Option ℤ)
  op_cell op scalar on_left none = ok none
  op_cell op scalar on_left (some value) =
      int4_arithmetic (if on_left then scalar else value) (if on_left then value else scalar) op
      >>= λ r. ok (some r)

module _ ⦃int : PgInt⦄ (input : Int4Vector) (op : ArithmeticOp) (scalar : ℤ) (on_left : Bool) where
  -- The rows in `done` hold their results, and the other rows are null.
  record Computed (nrows : ℕ) (done : ℕ → Bool) (out : Output) : Type 0 where
    room : HasRoom nrows out
    result :
        (row : ℕ)
        → row < nrows
        → done row ≡ true
        → op_cell op scalar on_left (cell input row) ≡ ok (cell (as_column out) row)
    rest : (row : ℕ) → row < nrows → done row ≡ false → validity_bit out.validity row ≡ false

  abbrev pub Fails : ℕ → ArithmeticError → Type 0
  Fails row e = op_cell op scalar on_left (cell input row) ≡ err e

  -- What a run over `rows` ends in: all computed, or the error of one of the rows.
  abbrev Ends : ℕ → (ℕ → Bool) → List ℕ → Result ArithmeticError Output → Type 0
  Ends nrows done rows (ok out) = Computed nrows (λ r. done r || has r rows) out
  Ends nrows done rows (err e) = (row : ℕ) × (has row rows ≡ true) × Fails row e

  Computed-null :
      (nrows k : ℕ) (done : ℕ → Bool) (out : Output)
      → nrows ≤ 2 ^ 31
      → k < nrows
      → row_is_null input k ≡ true
      → Computed nrows done out
      → Computed nrows (λ r. done r || (r == k)) out
  Computed-null nrows k done out small b null c = record {
    room = c.room;
    result = λ row h d. elim (Bool-cases (done row)) [
      | inl old ↦ c.result row h old
      | inr new ↦
          let e : row ≡ k = ground arith in
          rw (cell-as_column out row (omega arith), c.rest row h new) (rw (e, null))
    ];
    rest = λ row h d. c.rest row h (ground arith);
  }

  Computed-value :
      (nrows k : ℕ) (done : ℕ → Bool) (out : Output) (r : ℤ)
      → nrows ≤ 2 ^ 31
      → k < nrows
      → op_cell op scalar on_left (cell input k) ≡ ok (some r)
      → Computed nrows done out
      → Computed nrows
          (λ n. done n || (n == k))
          (record { values = set out.values k r; validity = set_valid out.validity k })
  Computed-value nrows k done out r small b value c = record {
    room = record {
      values = omega (arith, length-set out.values k r, c.room.values);
      validity =
          unfold set_valid in
          omega (
            arith,
            length-set {A = Word} out.validity (k / 8)
                (bit_or (get_or out.validity (k / 8) []) (one_at 8 (k % 8))),
            c.room.validity,
          );
    };
    result = λ row h d. elim (Bool-cases (row == k)) [
      | inl here ↦
          let e : row ≡ k = (==_iff row k).0 here in
          rw e (
            value
            ∙ ap ok (
                sym (
                  cell-as_column _ k (omega arith)
                  ∙ rw
                      (
                        validity_bit-set_valid out.validity k k (omega (arith, c.room.validity)),
                        get_or-set_self out.values k r (pos 0) (omega (arith, c.room.values)),
                      )
                      (ground arith))))
      | inr other ↦
          let old : done row ≡ true = ground arith in
          c.result row h old
          ∙ ap ok (
              cell-as_column out row (omega arith)
              ∙ sym (
                  cell-as_column _ row (omega arith)
                  ∙ rw
                      (
                        validity_bit-set_valid out.validity k row (omega (arith, c.room.validity)),
                        get_or-set_ne out.values k row r (pos 0) (ground arith),
                        other,
                      )
                      (ground arith)))
    ];
    rest = λ row h d.
        validity_bit-set_valid out.validity k row (omega (arith, c.room.validity))
        ∙ let off = c.rest row h (ground arith) in ground (arith, off);
  }

  Ends-step :
      (nrows k : ℕ) (ks : List ℕ) (done : ℕ → Bool) (r : Result ArithmeticError Output)
      → Ends nrows (λ n. done n || (n == k)) ks r
      → Ends nrows done (k ∷ ks) r
  unfolding has
  Ends-step nrows k ks done (ok out) c = record {
    room = c.room;
    result = λ row h d. c.result row h (ground arith);
    rest = λ row h d. c.rest row h (ground arith);
  }
  Ends-step nrows k ks done (err e) (row, here, fails) = (row, ground arith, fails)

  fold-Ends :
      (nrows : ℕ) (ks : List ℕ) (done : ℕ → Bool) (out : Output)
      → nrows ≤ 2 ^ 31
      → AllBelow nrows ks
      → Computed nrows done out
      → Ends nrows done ks (fold_result (arithmetic_row input op scalar on_left) ks out)
  unfolding fold_result has arithmetic_row
  fold-Ends nrows [] done out small b c = record {
    room = c.room;
    result = λ row h d. c.result row h (ground arith);
    rest = λ row h d. c.rest row h (ground arith);
  }
  fold-Ends nrows (k ∷ ks) done out small b c = elim (Bool-cases (row_is_null input k)) [
    | inl null ↦ rw null (
        Ends-step nrows k ks done _
          (fold-Ends nrows ks _ out small b.1 (Computed-null nrows k done out small b.0 null c)))
    | inr value ↦
        rw value
          (elim (Result-cases (
            int4_arithmetic (if on_left then scalar else row_value input k)
              (if on_left then row_value input k else scalar) op)) [
                | inl (r, e) ↦ rw e (
                    Ends-step nrows k ks done _ (
                      fold-Ends nrows ks _ _ small b.1
                        (Computed-value nrows k done out r small b.0 (rw (value, e)) c)))
                | inr (x, e) ↦ rw e (k, ground arith, rw (value, e))
              ])
  ]

  module _ ⦃pg : PgBitutils⦄ where
    -- The nested loops are one loop over the rows.
    arithmetic_words-fold :
        (nrows word : ℕ) (ws : List Word) (out : Output)
        → arithmetic_words input op scalar on_left nrows word ws out
          ≡ fold_result (arithmetic_row input op scalar on_left) (scan_rows nrows word ws) out
    unfolding arithmetic_words scan_rows
    arithmetic_words-fold nrows word [] out = unfold fold_result in refl
    arithmetic_words-fold nrows word (w ∷ ws) out =
        rw
          (
            fold_result-append (arithmetic_row input op scalar on_left)
                (ones (word * 64) (bit_and w (word_mask nrows word)))
                (scan_rows nrows (word + 1) ws) out,
            set_bits_decrement-ones (bit_and w (word_mask nrows word)),
          )
          (let e : word * 64 ≡ word * 64 + 0 = omega arith in
            let m =
              ap (λ j. ones j (bit_and w (word_mask nrows word))) e
              ∙ ones-map (word * 64) 0 (bit_and w (word_mask nrows word)) in
            rw
              (
                m,
                fold_result-map (arithmetic_row input op scalar on_left) (λ b. word * 64 + b)
                    (ones 0 (bit_and w (word_mask nrows word))) out,
              )
              (by_step
                (fold_result (λ b. arithmetic_row input op scalar on_left (word * 64 + b))
                  (ones 0 (bit_and w (word_mask nrows word))) out)
                (arithmetic_words-fold nrows (word + 1) ws)))
      where
        by_step :
            (r : Result ArithmeticError Output)
            → ((t : Output)
                → arithmetic_words input op scalar on_left nrows (word + 1) ws t
                  ≡ fold_result
                      (arithmetic_row input op scalar on_left)
                      (scan_rows nrows (word + 1) ws)
                      t)
            → r >>= arithmetic_words input op scalar on_left nrows (word + 1) ws
              ≡ r
                >>= fold_result
                    (arithmetic_row input op scalar on_left)
                    (scan_rows nrows (word + 1) ws)
        by_step (ok t) ih = ih t
        by_step (err e) ih = refl

    start :
        (nrows : ℕ) (out : Output)
        → HasRoom nrows out
        → Computed nrows
            (λ r. false)
            (record out { validity = clear_bytes out.validity ((nrows + 7) / 8) })
    start nrows out room = record {
      room = clear-HasRoom nrows out room;
      result = λ row h d. cc;
      rest = λ row h d. cleared out.validity ((nrows + 7) / 8) row (omega arith);
    }

    -- What the kernel promises: on success every selected row holds what the operator gives for it
    -- alone and every other row is null; an error is the error of some selected row.
    abbrev pub MeetsRows : Selection → Result ArithmeticError Output → Type 0
    MeetsRows s (ok out) =
        (row : ℕ)
        → row < s.nrows
        → (contains s row ≡ true
            → op_cell op scalar on_left (cell input row) ≡ ok (cell (as_column out) row))
          × (contains s row ≡ false → cell (as_column out) row ≡ none)
    MeetsRows s (err e) = (row : ℕ) × (row < s.nrows) × (contains s row ≡ true) × Fails row e

    meets :
        (s : Selection) (r : Result ArithmeticError Output)
        → s.nrows ≤ 2 ^ 31
        → Ends s.nrows (λ n. false) (rows s) r
        → MeetsRows s r
    meets s (ok out) small c = λ row h.
        let m = has-rows_where (contains s) s.nrows 0 row in
        (
          λ on. c.result row h (ground (arith, m, on)),
          λ off. cell-as_column out row (omega arith) ∙ rw (c.rest row h (ground (arith, m, off))),
        )
    meets s (err e) small (row, here, fails) =
        let m = has-rows_where (contains s) s.nrows 0 row in
        (row, ground (arith, m, here), ground (arith, m, here), fails)

    -- For a well-formed selection of at most 2^31 rows and output arrays with room for them, the
    -- arithmetic kernel meets its description: on success every selected row of the output holds the
    -- strict operator applied to that row alone (null for null) and every other row is null, and an
    -- error is the error of the operator at some selected row.
    pub arithmetic_scalar-MeetsRows :
        (s : Selection) (out : Output)
        → IsWellFormed s
        → s.nrows ≤ 2 ^ 31
        → HasRoom s.nrows out
        → MeetsRows s (arithmetic_scalar input op scalar on_left s out)
    unfolding arithmetic_scalar
    arithmetic_scalar-MeetsRows s out v small room =
        rw
          (
            arithmetic_words-fold s.nrows 0 s.words
                (record out { validity = clear_bytes out.validity ((s.nrows + 7) / 8) }),
            scan_rows-rows s v,
          )
          (meets s _ small (
            fold-Ends s.nrows (rows s) (λ n. false) _ small
              (rows_where-AllBelow (contains s) s.nrows s.nrows 0 (omega arith))
              (start s.nrows out room)))

    room_left :
        (s : Selection) (r : Result ArithmeticError Output)
        → Ends s.nrows (λ n. false) (rows s) r
        → KeepsRoom s.nrows r
    room_left s (ok out) c = c.room
    room_left s (err e) c = tt

    -- The output arrays keep their room.
    pub arithmetic_scalar-KeepsRoom :
        (s : Selection) (out : Output)
        → IsWellFormed s
        → s.nrows ≤ 2 ^ 31
        → HasRoom s.nrows out
        → KeepsRoom s.nrows (arithmetic_scalar input op scalar on_left s out)
    unfolding arithmetic_scalar
    arithmetic_scalar-KeepsRoom s out v small room =
        rw
          (
            arithmetic_words-fold s.nrows 0 s.words
                (record out { validity = clear_bytes out.validity ((s.nrows + 7) / 8) }),
            scan_rows-rows s v,
          )
          (room_left s _ (
            fold-Ends s.nrows (rows s) (λ n. false) _ small
              (rows_where-AllBelow (contains s) s.nrows s.nrows 0 (omega arith))
              (start s.nrows out room)))
