-- ===== src/Batch/Selection/Rows.antt =====
-- The rows of a selection in order, as a list, which is what the operations are about.
use pg_batch.Prelude.{
  ℕ, zero, suc, ◌+◌, ◌-◌, ◌/◌, ◌%◌, ◌≤◌, ◌<◌, ◌≡◌, refl, ap, ◌∙◌, inl, inr, Bool, true, false, not,
  ◌&&◌, List, [], ◌∷◌, ◌++◌, arith, if◌then◌else◌, ◌==◌, ==_iff, ltb, leb, Bool-cases,
}
use pg_batch.Bits.{Word, test_bit, is_zero, bit_and, one_at}
use pg_batch.Bits.Laws.{test_bit-and, test_bit-one_at, test_bit-is_zero}
use pg_batch.Bits.Ones.{has, AllBelow}
use pg_batch.Batch.Selection.{Selection, contains, word_at}

is_zero-test_bit : (w : Word) → ((i : ℕ) → test_bit w i ≡ false) → is_zero w ≡ true
unfolding is_zero
is_zero-test_bit [] h = refl
is_zero-test_bit (b ∷ w) h = rw (h 0) (is_zero-test_bit w (λ i. h (suc i)))

and_one_bit : (b e : Bool) → (e ≡ true → b ≡ false) → b && e ≡ false
and_one_bit true true h = h refl
and_one_bit true false h = refl
and_one_bit false e h = refl

-- `(word & (1 << k)) != 0` reads bit `k`.
single_bit : (w : Word) (k : ℕ) → k < 64 → not (is_zero (bit_and w (one_at 64 k))) ≡ test_bit w k
single_bit w k h = elim (Bool-cases (test_bit w k)) [
  | inl on ↦ rw on (elim (Bool-cases (is_zero (bit_and w (one_at 64 k)))) [
    | inl z ↦ absurd (clash on z)
    | inr z ↦ rw z
  ])
  | inr off ↦ rw (
    off,
    is_zero-test_bit (bit_and w (one_at 64 k)) (λ i.
        test_bit-and w (one_at 64 k) i
        ∙ rw (test_bit-one_at 64 k i h) (
            and_one_bit (test_bit w i) (i == k)
              (λ e. let same : i ≡ k = ground arith in ap (test_bit w) same ∙ off))),
  )
]
  where
    clash : test_bit w k ≡ true → is_zero (bit_and w (one_at 64 k)) ≡ true → ⊥
    clash on z =
        let zero_bit = test_bit-is_zero (bit_and w (one_at 64 k)) k z in
        let and_bit = test_bit-and w (one_at 64 k) k in
        let at_bit = test_bit-one_at 64 k k h in ground (arith, zero_bit, and_bit, at_bit, on)

pub contains-test_bit :
    (s : Selection) (row : ℕ) → contains s row ≡ test_bit (word_at s (row / 64)) (row % 64)
unfolding contains
contains-test_bit s row = single_bit (word_at s (row / 64)) (row % 64) (omega arith)

-- The numbers in `start … start + n - 1` that satisfy a test.
unfoldable pub rows_where : (ℕ → Bool) → ℕ → ℕ → List ℕ
rows_where p start zero = []
rows_where p start (suc n) =
    if p start then start ∷ rows_where p (start + 1) n else rows_where p (start + 1) n

-- The selected rows, in order.
abbrev pub rows : Selection → List ℕ
rows s = rows_where (contains s) 0 s.nrows

-- The selected rows from `start` on.
abbrev pub rows_from : Selection → ℕ → List ℕ
rows_from s start = rows_where (contains s) start (s.nrows - start)

pub rows_where_congr :
    (p q : ℕ → Bool) (n start : ℕ)
    → ((i : ℕ) → start ≤ i → i < start + n → p i ≡ q i)
    → rows_where p start n ≡ rows_where q start n
unfolding rows_where
rows_where_congr p q zero start h = refl
rows_where_congr p q (suc n) start h = rw (
  h start (omega arith) (omega arith),
  rows_where_congr p q n (start + 1) (λ i a b. h i (omega arith) (omega arith)),
)

pub rows_where_append :
    (p : ℕ → Bool) (a b start : ℕ)
    → rows_where p start (a + b) ≡ rows_where p start a ++ rows_where p (start + a) b
unfolding rows_where
rows_where_append p zero b start =
    let e : 0 + b ≡ b = omega arith in let f : start + 0 ≡ start = omega arith in rw (e, f)
rows_where_append p (suc a) b start =
    let e : suc a + b ≡ suc (a + b) = omega arith in
    let f : start + suc a ≡ (start + 1) + a = omega arith in
    rw (e, f)
      (elim (Bool-cases (p start)) [
        | inl t ↦ rw t (ap (◌∷◌ start) (rows_where_append p a b (start + 1)))
        | inr t ↦ rw t (rows_where_append p a b (start + 1))
      ])

pub rows_where_none :
    (p : ℕ → Bool) (n start : ℕ)
    → ((i : ℕ) → start ≤ i → i < start + n → p i ≡ false)
    → rows_where p start n ≡ []
unfolding rows_where
rows_where_none p zero start h = refl
rows_where_none p (suc n) start h =
    rw (h start (omega arith) (omega arith))
      (rows_where_none p n (start + 1) (λ i a b. h i (omega arith) (omega arith)))

pub has-rows_where :
    (p : ℕ → Bool) (n start i : ℕ)
    → has i (rows_where p start n) ≡ (leb start i && ltb i (start + n)) && p i
unfolding rows_where has
has-rows_where p zero start i = ground arith
has-rows_where p (suc n) start i = elim (Bool-cases (p start)) [
  | inl on ↦
      rw (on, has-rows_where p n (start + 1) i)
        (elim (Bool-cases (i == start)) [
          | inl here ↦ let e : i ≡ start = (==_iff i start).0 here in rw e (rw on (ground arith))
          | inr other ↦ ground arith
        ])
  | inr off ↦
      rw (off, has-rows_where p n (start + 1) i)
        (elim (Bool-cases (i == start)) [
          | inl here ↦ let e : i ≡ start = (==_iff i start).0 here in rw e (rw off (ground arith))
          | inr other ↦ ground arith
        ])
]

pub rows_where-AllBelow :
    (p : ℕ → Bool) (m n start : ℕ) → start + n ≤ m → AllBelow m (rows_where p start n)
unfolding rows_where
rows_where-AllBelow p m zero start h = tt
rows_where-AllBelow p m (suc n) start h = elim (Bool-cases (p start)) [
  | inl on ↦ rw on (omega arith, rows_where-AllBelow p m n (start + 1) (omega arith))
  | inr off ↦ rw off (rows_where-AllBelow p m n (start + 1) (omega arith))
]
