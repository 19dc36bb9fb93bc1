-- ===== src/Kernels/Reduce/Spec.antt =====
-- kernels/int4.c: pg_batch_reduce_int4 meets its description: the number, the sum, the least and the
-- greatest of the values of the selected rows that are not null.
use mathlib.Core.List.{append-nil, append_assoc}
use pg_batch.Prelude.{
  ℕ, suc, ◌+◌, ◌-◌, ◌*◌, ◌<◌, ◌≡◌, refl, ap, sym, ◌∙◌, inl, inr, Bool, true, false, not, ◌&&◌, ◌||◌,
  List, [], ◌∷◌, ◌++◌, foldl, foldl-append, arith, length, get_or, length-append, ◌==◌, ==_iff,
  if◌then◌else◌, Bool-cases, min as least,
}
use pg_batch.Prelude.Int.{ℤ, pos, ◌+ℤ◌, +ℤ_assoc, ◌≤ℤ◌, ltb_ℤ, int_laws}
use pg_batch.Bits.{Word, test_bit, is_zero, bit_and, ones}
use pg_batch.Bits.Laws.{test_bit-and, length-and}
use pg_batch.Bits.Ones.{has, ones-is_zero}
use pg_batch.Postgres.{PgBitutils}
use pg_batch.Batch.Selection.{Selection, IsWellFormed}
use pg_batch.Batch.Selection.Rows.{rows}
use pg_batch.Kernels.Vector.{Int4Vector, row_is_null, row_value}
use pg_batch.Kernels.Mask.{word_mask, length-word_mask, scan_rows, scan_rows-rows}
use pg_batch.Kernels.Filter.{not_null_mask}
use pg_batch.Kernels.Filter.Scalar.{test_bit-not_null_mask, length-not_null_mask}
use pg_batch.Kernels.Reduce.{
  Flags, Reduction, cleared, reduce_value, reduce_word, reduce_words, reduce_int4,
}
use pg_batch.Kernels.Reduce.Steps.{
  add_value, add_rows, keep, ones-keep, nonempty, reduce_nonnull-add_rows,
}

has-append : (i : ℕ) (xs ys : List ℕ) → has i (xs ++ ys) ≡ has i xs || has i ys
unfolding has
has-append i [] ys = refl
has-append i (x ∷ xs) ys = ground (arith, has-append i xs ys)

has-single : (i k : ℕ) → has i (k ∷ []) ≡ i == k
unfolding has
has-single i k = ground arith

keep-append : (p : ℕ → Bool) (xs ys : List ℕ) → keep p (xs ++ ys) ≡ keep p xs ++ keep p ys
unfolding keep
keep-append p [] ys = refl
keep-append p (x ∷ xs) ys = elim (Bool-cases (p x)) [
  | inl t ↦ rw t (ap (◌∷◌ x) (keep-append p xs ys))
  | inr t ↦ rw t (keep-append p xs ys)
]

nonempty-append : (xs : List ℕ) (k : ℕ) → nonempty (xs ++ k ∷ []) ≡ true
nonempty-append [] k = refl
nonempty-append (x ∷ xs) k = refl

module _ (column : Int4Vector) where
  -- The sum of the values of some rows.
  pub sum_rows : List ℕ → ℤ
  sum_rows [] = pos 0
  sum_rows (k ∷ ks) = row_value column k +ℤ sum_rows ks

  -- The selected rows that are not null.
  abbrev pub live_rows : Selection → List ℕ
  live_rows s = keep (λ row. not (row_is_null column row)) (rows s)

  -- The value is the least (greatest) of the rows: one of them has it, and none is below (above).
  abbrev pub IsLeast : ℤ → List ℕ → Type 0
  IsLeast m ks =
      ((row : ℕ) × (has row ks ≡ true) × (m ≡ row_value column row))
      × ((row : ℕ) → has row ks ≡ true → m ≤ℤ row_value column row)

  abbrev pub IsGreatest : ℤ → List ℕ → Type 0
  IsGreatest m ks =
      ((row : ℕ) × (has row ks ≡ true) × (m ≡ row_value column row))
      × ((row : ℕ) → has row ks ≡ true → row_value column row ≤ℤ m)

  -- What the reduction of some rows is.
  pub record Reduces (flags : Flags) (ks : List ℕ) (r : Reduction) : Type 0 where
    pub count : r.count ≡ (if flags.count then length ks else 0)
    pub sum : r.sum ≡ (if flags.sum then sum_rows ks else pos 0)
    pub has_value : r.has_value ≡ nonempty ks
    pub min : flags.min ≡ true → nonempty ks ≡ true → IsLeast r.min ks
    pub max : flags.max ≡ true → nonempty ks ≡ true → IsGreatest r.max ks

  sum_rows-append :
      (ks : List ℕ) (k : ℕ) → sum_rows (ks ++ k ∷ []) ≡ sum_rows ks +ℤ row_value column k
  unfolding sum_rows
  sum_rows-append [] k = omega int_laws
  sum_rows-append (j ∷ ks) k =
      ap (◌+ℤ◌ (row_value column j)) (sum_rows-append ks k)
      ∙ sym (+ℤ_assoc (row_value column j) (sum_rows ks) (row_value column k))

  none_has : (ks : List ℕ) (row : ℕ) → nonempty ks ≡ false → has row ks ≡ false
  unfolding has
  none_has [] row h = refl
  none_has (k ∷ ks) row h = cc

  -- One more row, whose value is below (above) the others or is not.
  IsLeast-new :
      (ks : List ℕ) (k : ℕ)
      → ((row : ℕ) → has row ks ≡ true → row_value column k ≤ℤ row_value column row)
      → IsLeast (row_value column k) (ks ++ k ∷ [])
  IsLeast-new ks k below = (
    (k, rw (has-append k ks (k ∷ []), has-single k k) (ground arith), refl),
    λ row h. elim (Bool-cases (row == k)) [
      | inl here ↦ let e : row ≡ k = (==_iff row k).0 here in rw e (omega arith)
      | inr other ↦ below row (ground (arith, has-append row ks (k ∷ []), has-single row k, h))
    ],
  )

  IsLeast-old :
      (ks : List ℕ) (k : ℕ) (m : ℤ)
      → IsLeast m ks
      → m ≤ℤ row_value column k
      → IsLeast m (ks ++ k ∷ [])
  IsLeast-old ks k m (found, below) le = (
    (found.0, ground (arith, has-append found.0 ks (k ∷ []), found.1), found.2),
    λ row h. elim (Bool-cases (row == k)) [
      | inl here ↦ let e : row ≡ k = (==_iff row k).0 here in rw e le
      | inr other ↦ below row (ground (arith, has-append row ks (k ∷ []), has-single row k, h))
    ],
  )

  IsGreatest-new :
      (ks : List ℕ) (k : ℕ)
      → ((row : ℕ) → has row ks ≡ true → row_value column row ≤ℤ row_value column k)
      → IsGreatest (row_value column k) (ks ++ k ∷ [])
  IsGreatest-new ks k below = (
    (k, rw (has-append k ks (k ∷ []), has-single k k) (ground arith), refl),
    λ row h. elim (Bool-cases (row == k)) [
      | inl here ↦ let e : row ≡ k = (==_iff row k).0 here in rw e (omega arith)
      | inr other ↦ below row (ground (arith, has-append row ks (k ∷ []), has-single row k, h))
    ],
  )

  IsGreatest-old :
      (ks : List ℕ) (k : ℕ) (m : ℤ)
      → IsGreatest m ks
      → row_value column k ≤ℤ m
      → IsGreatest m (ks ++ k ∷ [])
  IsGreatest-old ks k m (found, below) le = (
    (found.0, ground (arith, has-append found.0 ks (k ∷ []), found.1), found.2),
    λ row h. elim (Bool-cases (row == k)) [
      | inl here ↦ let e : row ≡ k = (==_iff row k).0 here in rw e le
      | inr other ↦ below row (ground (arith, has-append row ks (k ∷ []), has-single row k, h))
    ],
  )

  module _ (flags : Flags) (ks : List ℕ) (k : ℕ) (r : Reduction) (c : Reduces flags ks r) where
    IsLeast-step :
        flags.min ≡ true → IsLeast (add_value flags r (row_value column k)).min (ks ++ k ∷ [])
    unfolding add_value reduce_value
    IsLeast-step f = elim (Bool-cases r.has_value) [
      | inr first ↦
          rw (first, f)
            (IsLeast-new ks k (λ row h.
              let off = none_has ks row (sym c.has_value ∙ first) in
              absurd (ground (arith, off, h))))
      | inl later ↦
          let old = c.min f (sym c.has_value ∙ later) in
          rw (later, f)
            (elim (Bool-cases (ltb_ℤ (row_value column k) r.min)) [
              | inl less ↦ rw less (IsLeast-new ks k (λ row h. let b = old.1 row h in ground arith))
              | inr more ↦ rw more (IsLeast-old ks k r.min old (ground arith))
            ])
    ]

    IsGreatest-step :
        flags.max ≡ true → IsGreatest (add_value flags r (row_value column k)).max (ks ++ k ∷ [])
    unfolding add_value reduce_value
    IsGreatest-step f = elim (Bool-cases r.has_value) [
      | inr first ↦
          rw (first, f)
            (IsGreatest-new ks k (λ row h.
              let off = none_has ks row (sym c.has_value ∙ first) in
              absurd (ground (arith, off, h))))
      | inl later ↦
          let old = c.max f (sym c.has_value ∙ later) in
          rw (later, f)
            (elim (Bool-cases (ltb_ℤ r.max (row_value column k))) [
              | inl less ↦
                  rw less (IsGreatest-new ks k (λ row h. let b = old.1 row h in ground arith))
              | inr more ↦ rw more (IsGreatest-old ks k r.max old (ground arith))
            ])
    ]

    Reduces-step : Reduces flags (ks ++ k ∷ []) (add_value flags r (row_value column k))
    unfolding add_value reduce_value
    Reduces-step = record {
      count = ground (arith, c.count, length-append ks (k ∷ []));
      sum = ground (arith, c.sum, sum_rows-append ks k);
      has_value = ground (arith, nonempty-append ks k);
      min = λ f n. IsLeast-step f;
      max = λ f n. IsGreatest-step f;
    }

  Reduces-add_rows :
      (flags : Flags) (ks done : List ℕ) (r : Reduction)
      → Reduces flags done r
      → Reduces flags (done ++ ks) (add_rows column flags r ks)
  unfolding foldl
  Reduces-add_rows flags [] done r c = rw (append-nil done) c
  Reduces-add_rows flags (k ∷ ks) done r c = rw (← append_assoc done (k ∷ []) ks) (
      Reduces-add_rows flags ks (done ++ k ∷ []) (add_value flags r (row_value column k))
        (Reduces-step flags done k r c))

  Reduces-cleared : (flags : Flags) → Reduces flags [] cleared
  unfolding sum_rows
  Reduces-cleared flags = record {
    count = ground arith;
    sum = ground arith;
    has_value = refl;
    min = λ f n. cc;
    max = λ f n. cc;
  }

  module _ ⦃pg : PgBitutils⦄ (flags : Flags) where
    reduce_word-add_rows :
        (nrows word : ℕ) (w : Word) (r : Reduction)
        → length w ≡ 64
        → reduce_word column flags nrows word w r
          ≡ add_rows column flags r (
              keep
                (λ row. not (row_is_null column row))
                (ones (word * 64) (bit_and w (word_mask nrows word))))
    unfolding reduce_word
    reduce_word-add_rows nrows word w r l =
        let n = least 64 (nrows - word * 64) in
        let rows = bit_and w (word_mask nrows word) in
        let mask = not_null_mask column (word * 64) n rows in
        let rows64 : length rows ≡ 64 =
          length-and w (word_mask nrows word) (l ∙ sym (length-word_mask nrows word)) ∙ l in
        let mask64 : length mask ≡ 64 = length-not_null_mask column (word * 64) n rows rows64 in
        let live64 : length (bit_and rows mask) ≡ 64 =
          length-and rows mask (rows64 ∙ sym mask64) ∙ rows64 in
        let kept : ones (word * 64) (bit_and rows mask)
            ≡ keep (λ row. not (row_is_null column row)) (ones (word * 64) rows) =
          ones-keep (λ row. not (row_is_null column row)) rows (bit_and rows mask) (word * 64)
            (rows64 ∙ sym live64)
            (λ i.
              test_bit-and rows mask i
              ∙ rw (test_bit-not_null_mask column (word * 64) n rows i rows64)
                  (both (test_bit rows i) (not (row_is_null column (word * 64 + i))))) in
        elim (Bool-cases (is_zero rows)) [
          | inl z ↦ rw (z, ones-is_zero (word * 64) rows z) (unfold keep foldl in refl)
          | inr some_rows ↦
              rw (some_rows, ← kept)
                (elim (Bool-cases (is_zero (bit_and rows mask))) [
                  | inl z ↦
                      rw (z, ones-is_zero (word * 64) (bit_and rows mask) z) (unfold foldl in refl)
                  | inr live ↦ rw live (
                      reduce_nonnull-add_rows column flags nrows word (bit_and rows mask) r live64
                        live)
                ])
        ]
      where
        both : (a b : Bool) → a && (a && b) ≡ a && b
        both a b = ground arith

    reduce_words-add_rows :
        (nrows word : ℕ) (ws : List Word) (r : Reduction)
        → ((k : ℕ) → k < length ws → length (get_or ws k []) ≡ 64)
        → reduce_words column flags nrows word ws r
          ≡ add_rows column flags r
              (keep (λ row. not (row_is_null column row)) (scan_rows nrows word ws))
    unfolding reduce_words scan_rows
    reduce_words-add_rows nrows word [] r h = unfold keep foldl in refl
    reduce_words-add_rows nrows word (w ∷ ws) r h =
        let live : ℕ → Bool = λ row. not (row_is_null column row) in
        let here = ones (word * 64) (bit_and w (word_mask nrows word)) in
        reduce_words-add_rows nrows (word + 1) ws (reduce_word column flags nrows word w r)
          (λ k b. h (suc k) (omega arith))
        ∙ rw (reduce_word-add_rows nrows word w r (h 0 (omega arith))) (
            sym (
              foldl-append (λ s row. add_value flags s (row_value column row)) r (keep live here)
                (keep live (scan_rows nrows (word + 1) ws))))
        ∙ ap (add_rows column flags r) (sym (keep-append live here (scan_rows nrows (word + 1) ws)))

    -- On a well-formed selection, for any flags, the result is the number, the sum, the least and the
    -- greatest of the values of the selected rows that are not null, as far as the flags ask for
    -- them, and `has_value` tells whether there is such a row.
    pub reduce_int4-Reduces :
        (s : Selection) → IsWellFormed s → Reduces flags (live_rows s) (reduce_int4 column s flags)
    unfolding reduce_int4
    reduce_int4-Reduces s v =
        rw (reduce_words-add_rows s.nrows 0 s.words cleared v.widths, scan_rows-rows s v)
          (Reduces-add_rows flags (live_rows s) [] cleared (Reduces-cleared flags))
