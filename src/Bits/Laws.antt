-- ===== src/Bits/Laws.antt =====
-- What the bit operations do to each bit.
use pg_batch.Prelude.{
  ℕ, zero, suc, ◌+◌, ◌-◌, ◌≤◌, ◌<◌, ◌≡◌, refl, ap, sym, ◌∙◌, inl, inr, Bool, Bool-cases, ltb→lt,
  true, false, not, ◌&&◌, ◌||◌, [], ◌∷◌, ◌++◌, arith, length, take, drop, replicate, ltb, ◌==◌,
  if◌then◌else◌, length-append, length-replicate, length-set, length-take, get_or-take,
  get_or-append_lt, get_or-append_add, get_or-replicate, get_or-replicate_lt,
}
use pg_batch.Bits.{
  Word, test_bit, is_zero, bit_and, bit_or, bit_not, one_at, decrement, shift_left, shift_right,
  same,
}

pub test_bit-and : (x y : Word) (i : ℕ) → test_bit (bit_and x y) i ≡ test_bit x i && test_bit y i
unfolding bit_and
test_bit-and [] y i = refl
test_bit-and (a ∷ x) [] i = ground arith
test_bit-and (a ∷ x) (b ∷ y) zero = refl
test_bit-and (a ∷ x) (b ∷ y) (suc i) = test_bit-and x y i

pub test_bit-or : (x y : Word) (i : ℕ) → test_bit (bit_or x y) i ≡ test_bit x i || test_bit y i
unfolding bit_or
test_bit-or [] y i = refl
test_bit-or (a ∷ x) [] zero = ground arith
test_bit-or (a ∷ x) [] (suc i) = ground arith
test_bit-or (a ∷ x) (b ∷ y) zero = refl
test_bit-or (a ∷ x) (b ∷ y) (suc i) = test_bit-or x y i

pub test_bit-not : (x : Word) (i : ℕ) → i < length x → test_bit (bit_not x) i ≡ not (test_bit x i)
unfolding bit_not
test_bit-not [] i h = elim h [ ]
test_bit-not (a ∷ x) zero h = refl
test_bit-not (a ∷ x) (suc i) h = test_bit-not x i (omega arith)

pub test_bit-one_at : (width k i : ℕ) → k < width → test_bit (one_at width k) i ≡ i == k
unfolding one_at
test_bit-one_at zero k i h = elim h [ ]
test_bit-one_at (suc w) zero zero h = refl
test_bit-one_at (suc w) zero (suc i) h = get_or-replicate w i false ∙ ground arith
test_bit-one_at (suc w) (suc k) zero h = ground arith
test_bit-one_at (suc w) (suc k) (suc i) h = test_bit-one_at w k i (omega arith) ∙ ground arith

pub length-and : (x y : Word) → length x ≡ length y → length (bit_and x y) ≡ length x
unfolding bit_and
length-and [] y h = refl
length-and (a ∷ x) [] h = omega arith
length-and (a ∷ x) (b ∷ y) h = ap suc (length-and x y (omega arith))

pub length-or : (x y : Word) → length x ≡ length y → length (bit_or x y) ≡ length x
unfolding bit_or
length-or [] [] h = refl
length-or [] (b ∷ y) h = omega arith
length-or (a ∷ x) [] h = refl
length-or (a ∷ x) (b ∷ y) h = ap suc (length-or x y (omega arith))

pub length-not : (x : Word) → length (bit_not x) ≡ length x
unfolding bit_not
length-not [] = refl
length-not (a ∷ x) = ap suc (length-not x)

pub length-one_at : (width k : ℕ) → length (one_at width k) ≡ width
unfolding one_at
length-one_at width k = length-set (replicate width false) k true ∙ length-replicate width false

pub test_bit-is_zero : (w : Word) (i : ℕ) → is_zero w ≡ true → test_bit w i ≡ false
unfolding is_zero
test_bit-is_zero [] i h = refl
test_bit-is_zero (b ∷ w) zero h = ground arith
test_bit-is_zero (b ∷ w) (suc i) h = test_bit-is_zero w i (ground arith)

-- UINT64_MAX << k has the bits from k on.
pub test_bit-shift_left :
    (width k i : ℕ) → i < width → test_bit (shift_left (replicate width true) k) i ≡ not (ltb i k)
unfolding shift_left
test_bit-shift_left width k i h =
    get_or-take _ (replicate k false ++ replicate width true) i false
      (rw (length-replicate width true) h)
    ∙ go k i h
  where
    go :
        (k i : ℕ)
        → i < width
        → test_bit (replicate k false ++ replicate width true) i ≡ not (ltb i k)
    go zero i h = get_or-replicate_lt width i true false h ∙ ground arith
    go (suc k) zero h = ground arith
    go (suc k) (suc i) h = go k i (omega arith) ∙ ground arith

drop-replicate : (k n : ℕ) (b : Bool) → k ≤ n → drop k (replicate n b) ≡ replicate (n - k) b
drop-replicate zero n b h = ap (λ m. replicate m b) (omega arith)
drop-replicate (suc k) zero b h = elim h [ ]
drop-replicate (suc k) (suc n) b h =
    drop-replicate k n b (omega arith) ∙ ap (λ m. replicate m b) (omega arith)

take-replicate : (k n : ℕ) (b : Bool) → k ≤ n → take n (replicate k b) ≡ replicate k b
take-replicate zero zero b h = refl
take-replicate zero (suc n) b h = refl
take-replicate (suc k) zero b h = elim h [ ]
take-replicate (suc k) (suc n) b h = ap (◌∷◌ b) (take-replicate k n b (omega arith))

-- UINT64_MAX >> k has the bits below width - k.
pub test_bit-shift_right :
    (width k i : ℕ)
    → k ≤ width
    → test_bit (shift_right (replicate width true) k) i ≡ ltb i (width - k)
unfolding shift_right
test_bit-shift_right width k i h =
    rw (drop-replicate k width true h, length-replicate width true, take-replicate k width false h)
      (elim (Bool-cases (ltb i (width - k))) [
        | inl low ↦ rw low (
            get_or-append_lt (replicate (width - k) true) (replicate k false) i false
              (rw (length-replicate (width - k) true) (ltb→lt _ _ low))
            ∙ get_or-replicate_lt (width - k) i true false (ltb→lt _ _ low))
        | inr high ↦
            let m : length (replicate (width - k) true) ≤ i =
              rw (length-replicate (width - k) true) (ground arith) in
            let e : length (replicate (width - k) true) + (i - length (replicate (width - k) true))
                ≡ i =
              omega arith in
            rw high (
              ap (test_bit (replicate (width - k) true ++ replicate k false)) (sym e)
              ∙ get_or-append_add (replicate (width - k) true) (replicate k false) _ false
              ∙ get_or-replicate k _ false)
      ])

pub same-test_bit : (x y : Word) (i : ℕ) → same x y ≡ true → test_bit x i ≡ test_bit y i
unfolding same
same-test_bit [] [] i h = refl
same-test_bit [] (b ∷ y) i h = ground arith
same-test_bit (true ∷ x) [] i h = ground arith
same-test_bit (false ∷ x) [] i h = ground arith
same-test_bit (true ∷ x) (true ∷ y) zero h = refl
same-test_bit (true ∷ x) (true ∷ y) (suc i) h = same-test_bit x y i h
same-test_bit (false ∷ x) (false ∷ y) zero h = refl
same-test_bit (false ∷ x) (false ∷ y) (suc i) h = same-test_bit x y i h
same-test_bit (true ∷ x) (false ∷ y) i h = ground arith
same-test_bit (false ∷ x) (true ∷ y) i h = ground arith

pub length-shift_right :
    (width k : ℕ) → k ≤ width → length (shift_right (replicate width true) k) ≡ width
unfolding shift_right
length-shift_right width k h =
    rw
      (
        drop-replicate k width true h,
        length-replicate width true,
        take-replicate k width false h,
        length-append,
        length-replicate (width - k) true,
        length-replicate k false,
      )
      (omega arith)

pub test_bit-shift_left_word :
    (w : Word) (k i : ℕ)
    → i < length w
    → test_bit (shift_left w k) i ≡ (if ltb i k then false else test_bit w (i - k))
unfolding shift_left
test_bit-shift_left_word w k i h =
    get_or-take (length w) (replicate k false ++ w) i false h ∙ go k i
  where
    go :
        (k i : ℕ)
        → test_bit (replicate k false ++ w) i ≡ (if ltb i k then false else test_bit w (i - k))
    go zero i = let e : i - 0 ≡ i = omega arith in rw e (ground arith)
    go (suc k) zero = ground arith
    go (suc k) (suc i) = let e : suc i - suc k ≡ i - k = omega arith in rw e (go k i ∙ ground arith)

pub length-shift_left : (w : Word) (k : ℕ) → length (shift_left w k) ≡ length w
unfolding shift_left
length-shift_left w k =
    length-take (length w) (replicate k false ++ w)
      (rw (length-append (replicate k false) w) (omega arith))

-- The lowest bits, up to the one that is borrowed from.
pub test_bit-decrement :
    (width k i : ℕ) → k < width → test_bit (decrement (one_at width k)) i ≡ ltb i k
unfolding decrement one_at
test_bit-decrement zero k i h = elim h [ ]
test_bit-decrement (suc width) zero zero h = refl
test_bit-decrement (suc width) zero (suc i) h = get_or-replicate width i false ∙ ground arith
test_bit-decrement (suc width) (suc k) zero h = ground arith
test_bit-decrement (suc width) (suc k) (suc i) h =
    test_bit-decrement width k i (omega arith) ∙ ground arith

pub length-decrement : (w : Word) → length (decrement w) ≡ length w
unfolding decrement
length-decrement [] = refl
length-decrement (true ∷ w) = refl
length-decrement (false ∷ w) = ap suc (length-decrement w)
