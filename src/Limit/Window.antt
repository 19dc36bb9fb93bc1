-- ===== src/Limit/Window.antt =====
-- examples/limit_node/executor.c: LIMIT and OFFSET row by row, and on a list.
use pg_batch.Prelude.{
  ℕ, zero, suc, ◌-◌, ◌≡◌, refl, ap, sym, ◌∙◌, inl, inr, Bool, true, false, List, [], ◌∷◌, ◌++◌,
  arith, take, drop, ltb, ◌==◌, if◌then◌else◌, Bool-cases,
}
use pg_batch.Limit.{LimitState, take_row}

-- Field by field, so that the counters can be split.
abbrev state : ℕ → ℕ → Bool → LimitState → LimitState
state o c n st = record st { offset_remaining = o; count_remaining = c; no_count = n }

module _ {ℓ} {A : Type ℓ} where
  -- The rows that are kept, and the state after all rows.
  unfoldable pub kept : LimitState → List A → List A
  kept st [] = []
  kept st (r ∷ rs) =
      let rest = kept (take_row st).0 rs in if (take_row st).1 then r ∷ rest else rest

  unfoldable pub after : LimitState → List A → LimitState
  after st [] = st
  after st (r ∷ rs) = after (take_row st).0 rs

  -- LIMIT and OFFSET on a list.
  abbrev pub window : LimitState → List A → List A
  window st rs =
      if st.no_count
      then drop st.offset_remaining rs
      else take st.count_remaining (drop st.offset_remaining rs)

  pub kept-append :
      (xs ys : List A) (st : LimitState) → kept st (xs ++ ys) ≡ kept st xs ++ kept (after st xs) ys
  unfolding kept after
  kept-append [] ys st = refl
  kept-append (x ∷ xs) ys st = elim (Bool-cases ((take_row st).1)) [
    | inl k ↦ rw k (ap (λ l. x ∷ l) (kept-append xs ys (take_row st).0))
    | inr k ↦ rw k (kept-append xs ys (take_row st).0)
  ]

  take_nil : (c : ℕ) → take {A = A} c [] ≡ []
  take_nil zero = refl
  take_nil (suc c) = refl

  drop_nil : (o : ℕ) → drop {A = A} o [] ≡ []
  drop_nil zero = refl
  drop_nil (suc o) = refl

  kept-state :
      (rs : List A) (o c : ℕ) (n : Bool) (st : LimitState)
      → kept (state o c n st) rs ≡ window (state o c n st) rs
  unfolding kept take_row
  kept-state [] o c true st = sym (drop_nil o)
  kept-state [] o c false st = sym (ap (take c) (drop_nil o) ∙ take_nil c)
  kept-state (r ∷ rs) (suc o) c true st =
      let e : ltb 0 (suc o) ≡ true = ground arith in
      let f : suc o - 1 ≡ o = omega arith in rw (e, f) (kept-state rs o c true st)
  kept-state (r ∷ rs) (suc o) c false st =
      let e : ltb 0 (suc o) ≡ true = ground arith in
      let f : suc o - 1 ≡ o = omega arith in rw (e, f) (kept-state rs o c false st)
  kept-state (r ∷ rs) zero c true st = ap (λ l. r ∷ l) (kept-state rs zero c true st)
  kept-state (r ∷ rs) zero zero false st = kept-state rs zero zero false st
  kept-state (r ∷ rs) zero (suc c) false st =
      let e : (suc c == 0) ≡ false = ground arith in
      let f : suc c - 1 ≡ c = omega arith in
      rw (e, f) (ap (λ l. r ∷ l) (kept-state rs zero c false st))

  -- Row by row, the code keeps LIMIT rows after the first OFFSET ones.
  pub kept-window : (rs : List A) (st : LimitState) → kept st rs ≡ window st rs
  kept-window rs st = kept-state rs st.offset_remaining st.count_remaining st.no_count st
