-- ===== src/Kernels/Filter/Agree.antt =====
-- kernels/int4.c: pg_batch_filter_int4 keeps exactly the selected rows whose value is not null and
-- passes the comparison, on the SIMD path and on the scalar one.
use pg_batch.Prelude.{
  ℕ, zero, suc, ◌+◌, ◌-◌, ◌*◌, ◌/◌, ◌%◌, ◌≤◌, ◌<◌, ◌≡◌, refl, ap, sym, ◌∙◌, inl, inr, Bool, true,
  false, not, ◌&&◌, List, [], ◌∷◌, arith, length, get_or, ltb, leb, min, Bool-cases, get_or-beyond,
}
use pg_batch.Prelude.Int.{ℤ}
use pg_batch.Bits.{Word, test_bit, is_zero, bit_and, same}
use pg_batch.Bits.Laws.{test_bit-and, test_bit-is_zero, length-and}
use pg_batch.Postgres.{PgBitutils}
use pg_batch.Batch.Selection.{Selection, IsWellFormed, contains, word_at, nwords}
use pg_batch.Batch.Selection.Rows.{contains-test_bit}
use pg_batch.Kernels.Vector.{Int4Vector, row_is_null, row_value}
use pg_batch.Kernels.Mask.{word_mask, test_bit-word_mask, length-word_mask}
use pg_batch.Kernels.Compare.{Int4Op, compare}
use pg_batch.Kernels.Filter.{
  Sse2, not_null_mask, simd_compare, filter_word, filter_words, filter_int4,
}
use pg_batch.Kernels.Filter.Scalar.{test_bit-scalar_compare, test_bit-not_null_mask}
use pg_batch.Kernels.Filter.Simd.{simd_compare-Holds}

-- SQL's test of one row: a null never passes.
abbrev pub passes : Int4Vector → Int4Op → ℤ → ℕ → Bool
passes column op scalar row =
    not (row_is_null column row) && compare (row_value column row) scalar op

simd_bit :
    (r i_in n c : Bool) → (r ≡ true → i_in ≡ true) → r && ((i_in && c) && (r && n)) ≡ r && (n && c)
simd_bit true i_in n c h = rw (h refl) (ground arith)
simd_bit false i_in n c h = refl

module _ ⦃pg : PgBitutils⦄ (sse : Sse2) (available : Bool) (column : Int4Vector) (op : Int4Op)
    (scalar : ℤ) (enable_simd : Bool) where
  module _ (nrows word : ℕ) (w : Word) (width : length w ≡ 64)
      (clear : (i : ℕ) → i < 64 → nrows ≤ word * 64 + i → test_bit w i ≡ false) where
    masked : (i : ℕ) → i < 64 → test_bit (bit_and w (word_mask nrows word)) i ≡ test_bit w i
    masked i h =
        test_bit-and w (word_mask nrows word) i
        ∙ rw (test_bit-word_mask nrows word i h) (ground (arith, clear i h))

    inside :
        (i : ℕ)
        → i < 64
        → test_bit (bit_and w (word_mask nrows word)) i ≡ true
        → ltb i (min 64 (nrows - word * 64)) ≡ true
    inside i h on =
        let m = test_bit-and w (word_mask nrows word) i in
        let b = test_bit-word_mask nrows word i h in ground (arith, m, b, on)

    masked_length : length (bit_and w (word_mask nrows word)) ≡ 64
    masked_length =
        length-and w (word_mask nrows word) (width ∙ sym (length-word_mask nrows word)) ∙ width

    filter_word-bit :
        (i : ℕ)
        → i < 64
        → test_bit (filter_word sse available column nrows op scalar enable_simd word w) i
          ≡ test_bit w i && passes column op scalar (word * 64 + i)
    unfolding filter_word
    filter_word-bit i h =
        let r = bit_and w (word_mask nrows word) in
        elim (Bool-cases (is_zero r)) [
          | inl z ↦ rw z (let off = sym (masked i h) ∙ test_bit-is_zero r i z in rw off)
          | inr some_rows ↦
              rw some_rows
                (elim (Bool-cases (
                  (enable_simd && available)
                  && same r (word_mask nrows word)
                  && leb 4 (min 64 (nrows - word * 64)))) [
                    | inl fast ↦
                        rw
                          (
                            fast,
                            test_bit-and r
                                (bit_and
                                  (simd_compare sse column (word * 64) (min 64 (nrows - word * 64))
                                    op scalar)
                                  (not_null_mask column (word * 64) (min 64 (nrows - word * 64)) r))
                                i,
                            test_bit-and
                                (simd_compare sse column (word * 64) (min 64 (nrows - word * 64)) op
                                  scalar)
                                (not_null_mask column (word * 64) (min 64 (nrows - word * 64)) r) i,
                            (simd_compare-Holds sse column (word * 64) op scalar
                                  (min 64 (nrows - word * 64)) (omega arith)).1
                                i h,
                            test_bit-not_null_mask column (word * 64) (min 64 (nrows - word * 64)) r
                                i masked_length,
                          )
                          (simd_bit (test_bit r i) (ltb i (min 64 (nrows - word * 64)))
                              (not (row_is_null column (word * 64 + i)))
                              (compare (row_value column (word * 64 + i)) scalar op) (inside i h)
                            ∙ ap (λ b. b && passes column op scalar (word * 64 + i)) (masked i h))
                    | inr slow ↦ rw slow (
                        test_bit-scalar_compare column (word * 64) r op scalar i masked_length
                        ∙ ap (λ b. b && passes column op scalar (word * 64 + i)) (masked i h))
                  ])
        ]

  length-filter_words :
      (nrows word : ℕ) (ws : List Word)
      → length (filter_words sse available column nrows op scalar enable_simd word ws) ≡ length ws
  unfolding filter_words
  length-filter_words nrows word [] = refl
  length-filter_words nrows word (w ∷ ws) = ap suc (length-filter_words nrows (word + 1) ws)

  filter_words-at :
      (nrows word k : ℕ) (ws : List Word)
      → k < length ws
      → get_or (filter_words sse available column nrows op scalar enable_simd word ws) k []
        ≡ filter_word sse available column nrows op scalar enable_simd (word + k) (get_or ws k [])
  unfolding filter_words
  filter_words-at nrows word k [] h = elim h [ ]
  filter_words-at nrows word zero (w ∷ ws) h = let e : word + 0 ≡ word = omega arith in rw e
  filter_words-at nrows word (suc k) (w ∷ ws) h =
      let e : word + suc k ≡ (word + 1) + k = omega arith in
      rw e (filter_words-at nrows (word + 1) k ws (omega arith))

  module _ (s : Selection) (v : IsWellFormed s) where
    word_clear : (k i : ℕ) → i < 64 → s.nrows ≤ k * 64 + i → test_bit (word_at s k) i ≡ false
    word_clear k i h b =
        let q : (k * 64 + i) / 64 ≡ k = omega arith in
        let r : (k * 64 + i) % 64 ≡ i = omega arith in
        sym (contains-test_bit s (k * 64 + i) ∙ rw (q, r)) ∙ v.within (k * 64 + i) b

    -- On a well-formed selection, and whether or not SIMD is available and enabled, the filter keeps a
    -- row exactly if it was selected, its value is not null and the comparison with the scalar holds.
    pub contains-filter_int4 :
        (row : ℕ)
        → contains (filter_int4 sse available column s op scalar enable_simd) row
          ≡ contains s row && passes column op scalar row
    unfolding filter_int4
    contains-filter_int4 row =
        rw
          (
            contains-test_bit
                (record s {
                  words = filter_words sse available column s.nrows op scalar enable_simd 0 s.words;
                })
                row,
            contains-test_bit s row,
          )
          (elim (Bool-cases (ltb (row / 64) (nwords s))) [
            | inl there ↦
                let e : (0 + row / 64) * 64 + row % 64 ≡ row = omega arith in
                let f : 0 + row / 64 ≡ row / 64 = omega arith in
                ap (λ w. test_bit w (row % 64))
                  (filter_words-at s.nrows 0 (row / 64) s.words (ground arith))
                ∙ filter_word-bit s.nrows (0 + row / 64) (word_at s (row / 64))
                    (v.widths (row / 64) (ground arith))
                    (λ i h b. word_clear (row / 64) i h (omega arith)) (row % 64) (omega arith)
                ∙ ap (λ n. test_bit (word_at s (row / 64)) (row % 64) && passes column op scalar n)
                    e
            | inr past ↦
                let a = get_or-beyond s.words (row / 64) [] (ground arith) in
                let l = length-filter_words s.nrows 0 s.words in
                let b =
                  get_or-beyond
                    (filter_words sse available column s.nrows op scalar enable_simd 0 s.words)
                    (row / 64) [] (ground (arith, l)) in
                rw (a, b)
          ])
