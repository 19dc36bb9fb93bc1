-- ===== src/Kernels/Reduce/Steps.antt =====
-- kernels/int4.c: each path of the reduction of a word adds its values one by one.
use pg_batch.Prelude.{
  ℕ, zero, suc, ◌+◌, ◌-◌, ◌*◌, ◌≤◌, ◌≡◌, refl, ap, sym, ◌∙◌, inl, inr, Bool, true, false, not, ◌&&◌,
  ◌||◌, List, [], ◌∷◌, map, foldl, length-map, arith, length, ltb, if◌then◌else◌, Bool-cases,
  min as least,
}
use mathlib.Core.List.{append-nil}
use pg_batch.Prelude.Int.{ℤ, pos, ◌+ℤ◌, +ℤ_assoc, int_laws}
use pg_batch.Bits.{Word, test_bit, is_zero, ones, same}
use pg_batch.Bits.Laws.{same-test_bit}
use pg_batch.Bits.Ones.{set_bits-ones, set_bits_decrement-ones}
use pg_batch.Postgres.{PgBitutils}
use pg_batch.Batch.Selection.Rows.{rows_where, rows_where_append, rows_where_none, rows_where_congr}
use pg_batch.Kernels.Vector.{Int4Vector, row_value}
use pg_batch.Kernels.Mask.{word_mask, test_bit-word_mask, ones-map, ones-rows_where}
use pg_batch.Kernels.Reduce.{Flags, Reduction, range, reduce_value, reduce_sum, reduce_nonnull}

-- The reference: one value at a time.
unfoldable pub add_value : Flags → Reduction → ℤ → Reduction
add_value flags r value =
    reduce_value flags (record r { count = if flags.count then r.count + 1 else r.count }) value

-- The list without the rows that fail a test.
unfoldable pub keep : (ℕ → Bool) → List ℕ → List ℕ
keep p [] = []
keep p (k ∷ ks) = if p k then k ∷ keep p ks else keep p ks

pub ones-keep :
    (p : ℕ → Bool) (w w' : Word) (j : ℕ)
    → length w ≡ length w'
    → ((i : ℕ) → test_bit w' i ≡ test_bit w i && p (j + i))
    → ones j w' ≡ keep p (ones j w)
unfolding ones keep
ones-keep p [] [] j l h = refl
ones-keep p [] (b ∷ w') j l h = absurd (omega arith)
ones-keep p (b ∷ w) [] j l h = absurd (omega arith)
ones-keep p (b ∷ w) (b' ∷ w') j l h =
    let e : j + 0 ≡ j = omega arith in
    by_bit b b' (h 0 ∙ rw e) (
      ones-keep p w w' (j + 1) (omega arith)
        (λ i. h (suc i) ∙ ap (λ n. test_bit w i && p n) (omega arith)))
  where
    by_bit :
        (b b' : Bool)
        → b' ≡ b && p j
        → ones (j + 1) w' ≡ keep p (ones (j + 1) w)
        → ones j (b' ∷ w') ≡ keep p (ones j (b ∷ w))
    by_bit true b' e ih = rw e (elim (Bool-cases (p j)) [ inl t ↦ rw (t, ih) | inr t ↦ rw (t, ih) ])
    by_bit false b' e ih = rw (e, ih)

range-rows_where : (n start : ℕ) → range start n ≡ rows_where (λ i. true) start n
unfolding range rows_where
range-rows_where zero start = refl
range-rows_where (suc n) start = ap (◌∷◌ start) (range-rows_where n (start + 1))

-- A word that equals the mask of its rows has them all.
ones-full :
    (w : Word) (nrows word j : ℕ)
    → length w ≡ 64
    → same w (word_mask nrows word) ≡ true
    → ones j w ≡ range j (least 64 (nrows - word * 64))
ones-full w nrows word j l e =
    let n = least 64 (nrows - word * 64) in
    let p : ℕ → Bool = λ m. ltb m (j + n) in
    let split : 64 ≡ n + (64 - n) = omega arith in
    ones-rows_where p w j (λ i h. sym (
      same-test_bit w (word_mask nrows word) i e
      ∙ test_bit-word_mask nrows word i (omega arith)
      ∙ ground arith))
    ∙ ap (rows_where p j) (l ∙ split)
    ∙ rows_where_append p n (64 - n) j
    ∙ rw (rows_where_none p (64 - n) (j + n) (λ i a b. ground arith), append-nil)
        (rows_where_congr p (λ i. true) n j (λ i a b. ground arith) ∙ sym (range-rows_where n j))

foldl-map {ℓ} :
    {A : Type ℓ} (f : A → ℕ → A) (g : ℕ → ℕ) (ks : List ℕ) (a : A)
    → foldl (λ r k. f r (g k)) a ks ≡ foldl f a (map g ks)
unfolding foldl
foldl-map f g [] a = refl
foldl-map f g (k ∷ ks) a = foldl-map f g ks (f a (g k))

range-map : (n j k : ℕ) → range (j + k) n ≡ map (λ b. j + b) (range k n)
unfolding range
range-map zero j k = refl
range-map (suc n) j k =
    let e : j + k + 1 ≡ j + (k + 1) = omega arith in
    rw e (ap (λ l. (j + k) ∷ l) (range-map n j (k + 1)))

abbrev pub nonempty : List ℕ → Bool
nonempty [] = false
nonempty (k ∷ ks) = true

module _ (column : Int4Vector) (flags : Flags) where
  -- The rows of a list, added one at a time.
  abbrev pub add_rows : Reduction → List ℕ → Reduction
  add_rows = foldl (λ r row. add_value flags r (row_value column row))

  abbrev counted_by : ℕ → Reduction → Reduction
  counted_by n r = record r { count = if flags.count then r.count + n else r.count }

  reduce_value-count :
      (r : Reduction) (c : ℕ) (v : ℤ)
      → reduce_value flags (record r { count = c }) v
        ≡ record (reduce_value flags r v) { count = c }
  unfolding reduce_value
  reduce_value-count r c v = elim (Bool-cases r.has_value) [ inl t ↦ rw t | inr t ↦ rw t ]

  count_of_value : (r : Reduction) (v : ℤ) → (reduce_value flags r v).count ≡ r.count
  unfolding reduce_value
  count_of_value r v = ground arith

  -- Counting first, or with each value, is the same.
  counted_first :
      (ks : List ℕ) (r : Reduction)
      → foldl (λ s row. reduce_value flags s (row_value column row)) (counted_by (length ks) r) ks
        ≡ add_rows r ks
  unfolding foldl add_value
  counted_first [] r = elim (Bool-cases flags.count) [
    | inl t ↦ let e : r.count + 0 ≡ r.count = omega arith in rw (t, e)
    | inr t ↦ rw t
  ]
  counted_first (k ∷ ks) r =
      let v = row_value column k in
      ap (λ s. foldl (λ s row. reduce_value flags s (row_value column row)) s ks)
        (reduce_value-count r (counted_by (length (k ∷ ks)) r).count v
          ∙ ap (λ c. record (reduce_value flags r v) { count = c }) (more r v (length ks))
          ∙ ap (counted_by (length ks)) (sym (reduce_value-count r (counted_by 1 r).count v)))
      ∙ counted_first ks (reduce_value flags (counted_by 1 r) v)
    where
      more :
          (r : Reduction) (v : ℤ) (n : ℕ)
          → (if flags.count then r.count + suc n else r.count) ≡ (
              if flags.count
              then (if flags.count then r.count + 1 else r.count) + n
              else (if flags.count then r.count + 1 else r.count))
      more r v n = ground arith

  -- With no value flag only the count and `has_value` change.
  no_values :
      (ks : List ℕ) (r : Reduction)
      → (flags.sum ≡ false) × (flags.min ≡ false) × (flags.max ≡ false)
      → add_rows r ks ≡ record (counted_by (length ks) r) { has_value = r.has_value || nonempty ks }
  unfolding foldl add_value reduce_value
  no_values [] r h = ground arith
  no_values (k ∷ ks) r h =
      no_values ks (add_value flags r (row_value column k)) h
      ∙ ap (λ s. record (counted_by (length ks) s) { has_value = s.has_value || nonempty ks })
          (first h)
      ∙ ground arith
    where
      first :
          (flags.sum ≡ false) × (flags.min ≡ false) × (flags.max ≡ false)
          → add_value flags r (row_value column k) ≡ record (counted_by 1 r) { has_value = true }
      first h = rw (h.0, h.1, h.2) (elim (Bool-cases r.has_value) [ inl t ↦ rw t | inr t ↦ rw t ])

  -- With only the sum flag the values are added up first.
  abbrev total : List ℕ → ℤ
  total = foldl (λ sum row. sum +ℤ row_value column row) (pos 0)

  total-from :
      (ks : List ℕ) (a : ℤ) → foldl (λ sum row. sum +ℤ row_value column row) a ks ≡ a +ℤ total ks
  unfolding foldl
  total-from [] a = omega int_laws
  total-from (k ∷ ks) a =
      total-from ks (a +ℤ row_value column k)
      ∙ +ℤ_assoc a (row_value column k) (total ks)
      ∙ ap (◌+ℤ◌ a) (zero_sum ∙ sym (total-from ks (pos 0 +ℤ row_value column k)))
    where
      zero_sum : row_value column k +ℤ total ks ≡ (pos 0 +ℤ row_value column k) +ℤ total ks
      zero_sum = omega int_laws

  only_sum :
      (ks : List ℕ) (r : Reduction)
      → (flags.sum ≡ true) × (flags.min ≡ false) × (flags.max ≡ false)
      → add_rows r ks ≡ record (counted_by (length ks) r) {
        sum = r.sum +ℤ total ks;
        has_value = r.has_value || nonempty ks;
      }
  unfolding foldl add_value reduce_value
  only_sum [] r h = let e : r.sum +ℤ pos 0 ≡ r.sum = omega int_laws in rw e (ground arith)
  only_sum (k ∷ ks) r h =
      let v = row_value column k in
      let zero_sum : v +ℤ total ks ≡ pos 0 +ℤ v +ℤ total ks = omega int_laws in
      let sums : r.sum +ℤ v +ℤ total ks ≡ r.sum +ℤ total (k ∷ ks) =
        +ℤ_assoc r.sum v (total ks)
        ∙ ap (◌+ℤ◌ r.sum) (zero_sum ∙ sym (total-from ks (pos 0 +ℤ v))) in
      only_sum ks (add_value flags r v) h
      ∙ ap
          (λ s. record (counted_by (length ks) s) {
            sum = s.sum +ℤ total ks;
            has_value = s.has_value || nonempty ks;
          })
          (first h)
      ∙ rw sums (ground arith)
    where
      first :
          (flags.sum ≡ true) × (flags.min ≡ false) × (flags.max ≡ false)
          → add_value flags r (row_value column k)
            ≡ record (counted_by 1 r) { sum = r.sum +ℤ row_value column k; has_value = true }
      first h = rw (h.0, h.1, h.2) (elim (Bool-cases r.has_value) [ inl t ↦ rw t | inr t ↦ rw t ])

  nonempty-ones : (j : ℕ) (w : Word) → is_zero w ≡ false → nonempty (ones j w) ≡ true
  unfolding ones is_zero
  nonempty-ones j [] h = cc
  nonempty-ones j (true ∷ w) h = refl
  nonempty-ones j (false ∷ w) h = nonempty-ones (j + 1) w h

  module _ ⦃pg : PgBitutils⦄ where
    foldl-shift {ℓ} :
        {A : Type ℓ} (f : A → ℕ → A) (a : A) (j : ℕ) (w : Word)
        → foldl (λ r b. f r (j + b)) a (ones 0 w) ≡ foldl f a (ones j w)
    foldl-shift f a j w =
        let e : j + 0 ≡ j = omega arith in
        foldl-map f (λ b. j + b) (ones 0 w) a
        ∙ ap (foldl f a) (sym (ones-map j 0 w) ∙ ap (λ n. ones n w) e)

    reduce_sum-total :
        (first_row nrows : ℕ) (rows : Word)
        → length rows ≡ 64
        → nrows ≤ 64
        → reduce_sum column first_row nrows rows ≡ total (ones first_row rows)
    unfolding reduce_sum
    reduce_sum-total first_row nrows rows w n = elim (Bool-cases (same rows (word_mask nrows 0))) [
      | inl full ↦
          let e : least 64 (nrows - 0 * 64) ≡ nrows = omega arith in
          rw full (
            ap (foldl (λ sum row. sum +ℤ row_value column (first_row + row)) (pos 0))
              (ap (range 0) (sym e) ∙ sym (ones-full rows nrows 0 0 w full))
            ∙ foldl-shift (λ sum row. sum +ℤ row_value column row) (pos 0) first_row rows)
      | inr part ↦
          rw (part, set_bits_decrement-ones rows)
            (foldl-shift (λ sum row. sum +ℤ row_value column row) (pos 0) first_row rows)
    ]

    length-ones_shift : (j : ℕ) (w : Word) → length (ones j w) ≡ length (ones 0 w)
    length-ones_shift j w =
        let e : j + 0 ≡ j = omega arith in
        ap (λ n. length (ones n w)) (sym e)
        ∙ ap length (ones-map j 0 w)
        ∙ length-map (λ b. j + b) (ones 0 w)

    -- Each of the four paths adds the rows of the word one at a time.
    pub reduce_nonnull-add_rows :
        (nrows word : ℕ) (rows : Word) (r : Reduction)
        → length rows ≡ 64
        → is_zero rows ≡ false
        → reduce_nonnull column flags nrows word rows r ≡ add_rows r (ones (word * 64) rows)
    unfolding reduce_nonnull
    reduce_nonnull-add_rows nrows word rows r w z =
        let ks = ones (word * 64) rows in
        let c : pg.popcount64 rows ≡ length ks =
          pg.popcount64_lem rows ∙ sym (length-ones_shift (word * 64) rows) in
        let full_value : (r.has_value || nonempty ks) ≡ true =
          ground (arith, nonempty-ones (word * 64) rows z) in
        rw c (elim (Bool-cases (flags.sum || flags.min || flags.max)) [
          | inr none_of ↦ rw none_of (
              ap (λ b. record (counted_by (length ks) r) { has_value = b }) (sym full_value)
              ∙ sym (no_values ks r (ground arith, ground arith, ground arith)))
          | inl some_of ↦
              rw some_of (elim (Bool-cases (flags.sum && not (flags.min || flags.max))) [
                | inl sum_only ↦
                    rw
                      (
                        sum_only,
                        reduce_sum-total (word * 64) (least 64 (nrows - word * 64)) rows w
                            (omega arith),
                      )
                      (ap
                          (λ b. record (counted_by (length ks) r) {
                            sum = r.sum +ℤ total ks;
                            has_value = b;
                          })
                          (sym full_value)
                        ∙ sym (only_sum ks r (ground arith, ground arith, ground arith)))
                | inr general ↦ rw general (elim (Bool-cases (same rows (word_mask nrows word))) [
                  | inl full ↦
                      rw (full, ← ones-full rows nrows word (word * 64) w full) (counted_first ks r)
                  | inr part ↦
                      rw (part, set_bits-ones rows)
                        (foldl-shift (λ s row. reduce_value flags s (row_value column row))
                            (counted_by (length ks) r) (word * 64) rows
                          ∙ counted_first ks r)
                ])
              ])
        ])
