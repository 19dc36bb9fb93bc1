-- ===== src/Batch/Selection/Count.antt =====
-- include/pg_batch/batch.h: pg_batch_selection_count counts the selected rows.
use pg_batch.Prelude.{
  ℕ, suc, ◌+◌, ◌-◌, ◌*◌, ◌/◌, ◌%◌, ◌<◌, ◌≡◌, refl, ap, sym, ◌∙◌, inl, inr, Bool, true, false, List,
  [], ◌∷◌, arith, length, get_or, ◌==◌, ==_iff, if◌then◌else◌, Bool-cases, length-append,
}
use pg_batch.Bits.{Word, test_bit, ones}
use pg_batch.Postgres.{PgBitutils}
use pg_batch.Batch.Selection.{Selection, IsWellFormed, contains, count, count_words, nwords}
use pg_batch.Batch.Selection.Rows.{
  contains-test_bit, rows_where, rows, rows_where_append, rows_where_none,
}

length-ones_rows :
    (p : ℕ → Bool) (w : Word) (j start : ℕ)
    → ((i : ℕ) → i < length w → p (start + i) ≡ test_bit w i)
    → length (ones j w) ≡ length (rows_where p start (length w))
unfolding ones rows_where
length-ones_rows p [] j start h = refl
length-ones_rows p (b ∷ w) j start h =
    let e : start + 0 ≡ start = omega arith in
    let here : p start ≡ b = ap p (sym e) ∙ h 0 (omega arith) in
    let rest =
      length-ones_rows p w (j + 1) (start + 1)
        (λ i k. ap p (omega arith) ∙ h (suc i) (omega arith)) in
    rw here (by_bit b rest)
  where
    by_bit :
        (b : Bool)
        → length (ones (j + 1) w) ≡ length (rows_where p (start + 1) (length w))
        → length (ones j (b ∷ w))
          ≡ length (
              if b
              then start ∷ rows_where p (start + 1) (length w)
              else rows_where p (start + 1) (length w))
    by_bit true e = ap suc e
    by_bit false e = e

module _ ⦃pg : PgBitutils⦄ where
  count_words-rows :
      (p : ℕ → Bool) (ws : List Word) (start : ℕ)
      → ((k : ℕ) → k < length ws → length (get_or ws k []) ≡ 64)
      → ((k i : ℕ)
          → k < length ws
          → i < 64
          → p (start + (k * 64 + i)) ≡ test_bit (get_or ws k []) i)
      → count_words ws ≡ length (rows_where p start (length ws * 64))
  unfolding count_words rows_where
  count_words-rows p [] start w h = refl
  count_words-rows p (x ∷ ws) start w h =
      let e : suc (length ws) * 64 ≡ 64 + length ws * 64 = omega arith in
      let x64 : length x ≡ 64 = w 0 (omega arith) in
      let here : length (ones 0 x) ≡ length (rows_where p start 64) =
        length-ones_rows p x 0 start (λ i k. ap p (omega arith) ∙ h 0 i (omega arith) (omega arith))
        ∙ ap (λ n. length (rows_where p start n)) x64 in
      let rest =
        count_words-rows p ws (start + 64) (λ k b. w (suc k) (omega arith))
          (λ k i a b. ap p (omega arith) ∙ h (suc k) i (omega arith) b) in
      rw
        (
          e,
          pg.popcount64_lem x,
          rows_where_append p 64 (length ws * 64) start,
          length-append (rows_where p start 64) (rows_where p (start + 64) (length ws * 64)),
        )
        (omega (arith, here, rest))

  one_word : (ws : List Word) → length ws ≡ 1 → count_words ws ≡ pg.popcount64 (get_or ws 0 [])
  unfolding count_words
  one_word [] h = absurd (omega arith)
  one_word (w ∷ []) h = omega arith
  one_word (w ∷ x ∷ ws) h = absurd (omega arith)

  -- On a well-formed selection, of one word or of several, the count is the number of selected rows.
  pub count-rows : (s : Selection) → IsWellFormed s → count s ≡ length (rows s)
  unfolding count
  count-rows s v =
      let all = count_words-rows (contains s) s.words 0 v.widths (λ k i a b.
        contains-test_bit s (0 + (k * 64 + i))
        ∙ let e : (0 + (k * 64 + i)) / 64 ≡ k = omega arith in
          let f : (0 + (k * 64 + i)) % 64 ≡ i = omega arith in rw (e, f)) in
      let split : nwords s * 64 ≡ s.nrows + (nwords s * 64 - s.nrows) = omega (arith, v.enough) in
      let tail =
        rows_where_none (contains s) (nwords s * 64 - s.nrows) (0 + s.nrows)
          (λ i a b. v.within i (omega arith)) in
      let total : count_words s.words ≡ length (rows s) =
        all
        ∙ ap (λ n. length (rows_where (contains s) 0 n)) split
        ∙ ap length (rows_where_append (contains s) s.nrows (nwords s * 64 - s.nrows) 0)
        ∙ length-append (rows s) (rows_where (contains s) (0 + s.nrows) (nwords s * 64 - s.nrows))
        ∙ rw tail (omega arith) in
      elim (Bool-cases (nwords s == 1)) [
        | inl one ↦ rw one (sym (one_word s.words ((==_iff _ _).0 one)) ∙ total)
        | inr more ↦ rw more total
      ]
