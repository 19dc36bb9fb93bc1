-- ===== src/Limit/Trim.antt =====
-- examples/limit_node/executor.c: what trim_batch does to the rows of one batch.
use pg_batch.Prelude.{
  ℕ, zero, suc, ◌+◌, ◌-◌, ◌/◌, ◌≤◌, ◌<◌, ◌≡◌, refl, ap, ◌∙◌, subst, inl, inr, true, false, List, [],
  ◌∷◌, ◌++◌, Option, none, some, arith, length, ◌==◌, Bool-cases, Option-cases,
}
use mathlib.Core.List.{append-nil, append_assoc}
use pg_batch.Postgres.{PgBitutils}
use pg_batch.Batch.Selection.{Selection, IsWellFormed, contains, clear, next, following, nwords}
use pg_batch.Batch.Selection.Rows.{
  rows, rows_from, rows_where, rows_where_append, rows_where_congr, rows_where_none,
}
use pg_batch.Batch.Selection.Next.{
  IsFirst, next-IsFirst, rows_skip, rows_from-IsFirst-some, rows_from-IsFirst-none,
}
use pg_batch.Batch.Selection.Update.{contains-clear, nrows-clear, row_word, clear-IsWellFormed}
use pg_batch.Limit.{LimitState, Trimmed, take_row, trim_loop, trim_batch, stop_if_done}
use pg_batch.Limit.Window.{kept, after}

-- The rows before `start`, which the loop has passed.
abbrev passed : Selection → ℕ → List ℕ
passed s start = rows_where (contains s) 0 start

passed-rows_from :
    (s : Selection) (start : ℕ) → start ≤ s.nrows → rows s ≡ passed s start ++ rows_from s start
passed-rows_from s start h =
    let e : s.nrows ≡ start + (s.nrows - start) = omega arith in
    let z : 0 + start ≡ start = omega arith in
    ap (rows_where (contains s) 0) e
    ∙ rows_where_append (contains s) start (s.nrows - start) 0
    ∙ rw z

passed-found :
    (s : Selection) (start r : ℕ)
    → IsFirst s start (some r)
    → passed s (r + 1) ≡ passed s start ++ r ∷ []
passed-found s start r (a, b, on, off) =
    let e : r + 1 ≡ start + (r + 1 - start) = omega arith in
    let z : 0 + start ≡ start = omega arith in
    let n : start + (r + 1 - start) - (r + 1) ≡ 0 = omega arith in
    ap (rows_where (contains s) 0) e
    ∙ rows_where_append (contains s) start (r + 1 - start) 0
    ∙ rw z (
        ap (λ l. passed s start ++ l)
          (rows_skip s (r + 1 - start) start r a (omega arith) on off
            ∙ rw n (unfold rows_where in refl)))

module _ (s : Selection) (r : ℕ) (there : r / 64 < nwords s) where
  passed-clear : (start : ℕ) → start ≤ r → passed (clear s r) start ≡ passed s start
  passed-clear start h =
      rows_where_congr (contains (clear s r)) (contains s) start 0
        (λ i a b. contains-clear s r i there ∙ ground arith)

  rows_from-clear : rows_from (clear s r) (r + 1) ≡ rows_from s (r + 1)
  rows_from-clear =
      ap (λ n. rows_where (contains (clear s r)) (r + 1) (n - (r + 1))) (nrows-clear s r)
      ∙ rows_where_congr (contains (clear s r)) (contains s) (s.nrows - (r + 1)) (r + 1)
          (λ i a b. contains-clear s r i there ∙ ground arith)

  passed-cleared :
      (start : ℕ) → IsFirst s start (some r) → passed (clear s r) (r + 1) ≡ passed s start
  passed-cleared start (a, b, on, off) =
      let e : r + 1 ≡ start + (r + 1 - start) = omega arith in
      let z : 0 + start ≡ start = omega arith in
      ap (rows_where (contains (clear s r)) 0) e
      ∙ rows_where_append (contains (clear s r)) start (r + 1 - start) 0
      ∙ rw (z, rows_where_none (contains (clear s r)) (r + 1 - start) start (λ q c d. gone q c d))
          (append-nil (passed (clear s r) start) ∙ passed-clear start a)
    where
      gone : (q : ℕ) → start ≤ q → q < start + (r + 1 - start) → contains (clear s r) q ≡ false
      gone q c d = contains-clear s r q there ∙ elim (Bool-cases (q == r)) [
        | inl e ↦ rw e (ground arith)
        | inr n ↦ rw (off q c (ground arith))
      ]

module _ ⦃pg : PgBitutils⦄ where
  -- What is left of the batch `s` once the rows in `rs` have been decided on, after those in `done`.
  record Meets (st : LimitState) (s : Selection) (done rs : List ℕ) (n : ℕ) (t : Trimmed)
      : Type 0 where
    well_formed : IsWellFormed t.selection
    nrows : t.selection.nrows ≡ s.nrows
    rows : rows t.selection ≡ done ++ kept st rs
    state : t.state ≡ after st rs
    remaining : t.remaining ≡ n + length (kept st rs)

  trim_loop-end :
      (fuel : ℕ) (row : Option ℕ) (t : Trimmed)
      → next t.selection row ≡ none
      → trim_loop (suc fuel) row t ≡ t
  unfolding trim_loop
  trim_loop-end fuel row t e = rw (trim_loop, e)

  trim_loop-keep :
      (fuel r n : ℕ) (row : Option ℕ) (st : LimitState) (s : Selection)
      → next s row ≡ some r
      → (take_row st).1 ≡ true
      → trim_loop (suc fuel) row (record { state = st; selection = s; remaining = n })
        ≡ trim_loop fuel
            (some r)
            (record { state = (take_row st).0; selection = s; remaining = n + 1 })
  unfolding trim_loop
  trim_loop-keep fuel r n row st s e k = rw (trim_loop, e, k)

  trim_loop-clear :
      (fuel r n : ℕ) (row : Option ℕ) (st : LimitState) (s : Selection)
      → next s row ≡ some r
      → (take_row st).1 ≡ false
      → trim_loop (suc fuel) row (record { state = st; selection = s; remaining = n })
        ≡ trim_loop fuel
            (some r)
            (record { state = (take_row st).0; selection = clear s r; remaining = n })
  unfolding trim_loop
  trim_loop-clear fuel r n row st s e k = rw (trim_loop, e, k)

  nothing_left :
      (st : LimitState) (s : Selection) (start n : ℕ)
      → IsWellFormed s
      → start ≤ s.nrows
      → rows_from s start ≡ []
      → Meets st s
          (passed s start)
          (rows_from s start)
          n
          (record { state = st; selection = s; remaining = n })
  unfolding kept after
  nothing_left st s start n v a e = record {
    well_formed = v;
    nrows = refl;
    rows = passed-rows_from s start a ∙ rw e;
    state = rw e;
    remaining = rw e (omega arith);
  }

  found-IsFirst :
      (s : Selection) (row : Option ℕ) (r : ℕ)
      → IsWellFormed s
      → next s row ≡ some r
      → IsFirst s (following row) (some r)
  found-IsFirst s row r v e = subst (IsFirst s (following row)) e (next-IsFirst s v row)

  kept_step :
      (st : LimitState) (s : Selection) (start r n : ℕ) (t : Trimmed)
      → (take_row st).1 ≡ true
      → IsFirst s start (some r)
      → Meets (take_row st).0 s (passed s (r + 1)) (rows_from s (r + 1)) (n + 1) t
      → Meets st s (passed s start) (rows_from s start) n t
  unfolding kept after
  kept_step st s start r n t k f m = rw (rows_from-IsFirst-some s start r f) (record {
    well_formed = m.well_formed;
    nrows = m.nrows;
    rows =
        m.rows
        ∙ rw (passed-found s start r f, k)
            (append_assoc (passed s start) (r ∷ []) (kept (take_row st).0 (rows_from s (r + 1))));
    state = m.state;
    remaining = m.remaining ∙ rw k (omega arith);
  })

  cleared_step :
      (st : LimitState) (s : Selection) (start r n : ℕ) (t : Trimmed)
      → IsWellFormed s
      → (take_row st).1 ≡ false
      → IsFirst s start (some r)
      → Meets
          (take_row st).0
          (clear s r)
          (passed (clear s r) (r + 1))
          (rows_from (clear s r) (r + 1))
          n
          t
      → Meets st s (passed s start) (rows_from s start) n t
  unfolding kept after
  cleared_step st s start r n t v k f m =
      let there = row_word r v f.1 in
      let left = rows_from-clear s r there in
      rw (rows_from-IsFirst-some s start r f) (record {
        well_formed = m.well_formed;
        nrows = m.nrows ∙ nrows-clear s r;
        rows = m.rows ∙ rw (passed-cleared s r there start f, left, k);
        state = m.state ∙ rw left;
        remaining = m.remaining ∙ rw (left, k);
      })

  trim_loop-Meets :
      (fuel : ℕ) (row : Option ℕ) (st : LimitState) (s : Selection) (n : ℕ)
      → IsWellFormed s
      → following row ≤ s.nrows
      → s.nrows ≤ following row + fuel
      → Meets st s
          (passed s (following row))
          (rows_from s (following row))
          n
          (trim_loop fuel row (record { state = st; selection = s; remaining = n }))
  trim_loop-Meets zero row st s n v a b =
      let z : s.nrows - following row ≡ 0 = omega arith in
      unfold trim_loop in nothing_left st s (following row) n v a (rw z (unfold rows_where in refl))
  trim_loop-Meets (suc fuel) row st s n v a b = elim (Option-cases (next s row)) [
    | inl e ↦ rw (trim_loop-end fuel row (record { state = st; selection = s; remaining = n }) e) (
        nothing_left st s (following row) n v a (
          rows_from-IsFirst-none s (following row)
            (subst (IsFirst s (following row)) e (next-IsFirst s v row))))
    | inr (r, e) ↦
        let f = found-IsFirst s row r v e in
        elim (Bool-cases ((take_row st).1)) [
          | inl k ↦ rw (trim_loop-keep fuel r n row st s e k) (
              kept_step st s (following row) r n _ k f (
                trim_loop-Meets fuel (some r) (take_row st).0 s (n + 1) v (omega (arith, f.1))
                  (omega (arith, f.0))))
          | inr k ↦ rw (trim_loop-clear fuel r n row st s e k) (
              cleared_step st s (following row) r n _ v k f (
                trim_loop-Meets fuel (some r) (take_row st).0 (clear s r) n
                  (clear-IsWellFormed s r v f.1) (rw (nrows-clear s r) (omega (arith, f.1)))
                  (rw (nrows-clear s r) (omega (arith, f.0)))))
        ]
  ]

  -- One batch: the rows that are left are those that LIMIT and OFFSET keep of its rows.
  pub record TrimsBatch (st : LimitState) (s : Selection) (t : Trimmed) : Type 0 where
    pub well_formed : IsWellFormed t.selection
    pub left : rows t.selection ≡ kept st (rows s)
    pub state : t.state ≡ stop_if_done (after st (rows s))
    pub remaining : t.remaining ≡ length (kept st (rows s))

  pub trim_batch-TrimsBatch :
      (st : LimitState) (s : Selection) → IsWellFormed s → TrimsBatch st s (trim_batch st s)
  unfolding trim_batch
  trim_batch-TrimsBatch st s v =
      let m = trim_loop-Meets s.nrows none st s 0 v (omega arith) (omega arith) in
      let all : rows_from s 0 ≡ rows s = ap (rows_where (contains s) 0) (omega arith) in
      record {
        well_formed = m.well_formed;
        left = m.rows ∙ unfold rows_where in ap (kept st) all;
        state = ap stop_if_done (m.state ∙ ap (after st) all);
        remaining = m.remaining ∙ rw all (omega arith);
      }
