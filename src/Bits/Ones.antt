-- ===== src/Bits/Ones.antt =====
-- The ones of a word, and the loops of the code that visit them.
use pg_batch.Prelude.{
  ℕ, zero, suc, ◌+◌, ◌≤◌, ◌<◌, ◌≡◌, refl, ap, sym, ◌∙◌, inl, inr, Bool, true, false, ◌&&◌, ◌||◌,
  List, [], ◌∷◌, arith, length, replicate, ◌==◌, ==_iff, if◌then◌else◌, Bool-cases,
}
use pg_batch.Bits.{
  Word, test_bit, is_zero, bit_and, bit_or, bit_not, one_at, decrement, ones, lowest,
}
use pg_batch.Bits.Laws.{test_bit-or, test_bit-one_at, length-or, length-one_at}
use pg_batch.Postgres.{PgBitutils}

module _ ⦃pg : PgBitutils⦄ where
  -- while (rows != 0) { bitno = pg_rightmost_one_pos64(rows); …; rows &= ~(UINT64CONST(1) << bitno); }
  -- The rows in the order in which the body sees them.
  pub visit : ℕ → Word → List ℕ
  visit zero rows = []
  visit (suc fuel) rows =
      let k = pg.rightmost_one_pos64 rows in
      let rest = visit fuel (bit_and rows (bit_not (one_at (length rows) k))) in
      if is_zero rows then [] else k ∷ rest

  -- The same loop with `rows &= rows - 1`.
  pub visit_decrement : ℕ → Word → List ℕ
  visit_decrement zero rows = []
  visit_decrement (suc fuel) rows =
      let rest = visit_decrement fuel (bit_and rows (decrement rows)) in
      if is_zero rows then [] else pg.rightmost_one_pos64 rows ∷ rest

  -- The loops over a word: its width bounds the rounds.
  abbrev pub set_bits : Word → List ℕ
  set_bits w = visit (length w) w

  abbrev pub set_bits_decrement : Word → List ℕ
  set_bits_decrement w = visit_decrement (length w) w

pub ones-is_zero : (j : ℕ) (w : Word) → is_zero w ≡ true → ones j w ≡ []
unfolding ones is_zero
ones-is_zero j [] h = refl
ones-is_zero j (true ∷ w) h = ground arith
ones-is_zero j (false ∷ w) h = ones-is_zero (j + 1) w h

and-not-zeros : (w : Word) → bit_and w (bit_not (replicate (length w) false)) ≡ w
unfolding bit_and bit_not
and-not-zeros [] = refl
and-not-zeros (true ∷ w) = ap (◌∷◌ true) (and-not-zeros w)
and-not-zeros (false ∷ w) = ap (◌∷◌ false) (and-not-zeros w)

and_self : (w : Word) → bit_and w w ≡ w
unfolding bit_and
and_self [] = refl
and_self (true ∷ w) = ap (◌∷◌ true) (and_self w)
and_self (false ∷ w) = ap (◌∷◌ false) (and_self w)

-- Clearing the lowest one leaves the other ones.
ones-clear :
    (j : ℕ) (w : Word)
    → is_zero w ≡ false
    → ones j w ≡ (j + lowest w) ∷ ones j (bit_and w (bit_not (one_at (length w) (lowest w))))
unfolding ones is_zero lowest bit_and bit_not one_at
ones-clear j [] h = cc
ones-clear j (true ∷ w) h = rw (and-not-zeros w) (ground arith)
ones-clear j (false ∷ w) h = ones-clear (j + 1) w h ∙ ground arith

decrement-clear :
    (w : Word)
    → is_zero w ≡ false
    → bit_and w (decrement w) ≡ bit_and w (bit_not (one_at (length w) (lowest w)))
unfolding is_zero lowest bit_and bit_not one_at decrement
decrement-clear [] h = cc
decrement-clear (true ∷ w) h = ap (◌∷◌ false) (and_self w ∙ sym (and-not-zeros w))
decrement-clear (false ∷ w) h = ap (◌∷◌ false) (decrement-clear w h)

length-ones-le : (j : ℕ) (w : Word) → length (ones j w) ≤ length w
unfolding ones
length-ones-le j [] = omega arith
length-ones-le j (true ∷ w) = omega (arith, length-ones-le (j + 1) w)
length-ones-le j (false ∷ w) = omega (arith, length-ones-le (j + 1) w)

module _ ⦃pg : PgBitutils⦄ where
  visit-ones : (n : ℕ) (w : Word) → length (ones 0 w) ≤ n → visit n w ≡ ones 0 w
  unfolding visit
  visit-ones zero w h = elim (Bool-cases (is_zero w)) [
    | inl z ↦ sym (ones-is_zero 0 w z)
    | inr z ↦ absurd (omega (arith, ap (length {A = ℕ}) (ones-clear 0 w z)))
  ]
  visit-ones (suc n) w h = elim (Bool-cases (is_zero w)) [
    | inl z ↦ rw z (sym (ones-is_zero 0 w z))
    | inr z ↦
        rw (z, pg.rightmost_one_pos64_lem w z)
          (ap (◌∷◌ (lowest w))
              (visit-ones n _ (omega (arith, ap (length {A = ℕ}) (ones-clear 0 w z))))
            ∙ ground arith
            ∙ sym (ones-clear 0 w z))
  ]

  visit_decrement-ones : (n : ℕ) (w : Word) → length (ones 0 w) ≤ n → visit_decrement n w ≡ ones 0 w
  unfolding visit_decrement
  visit_decrement-ones zero w h = elim (Bool-cases (is_zero w)) [
    | inl z ↦ sym (ones-is_zero 0 w z)
    | inr z ↦ absurd (omega (arith, ap (length {A = ℕ}) (ones-clear 0 w z)))
  ]
  visit_decrement-ones (suc n) w h = elim (Bool-cases (is_zero w)) [
    | inl z ↦ rw z (sym (ones-is_zero 0 w z))
    | inr z ↦
        rw (z, pg.rightmost_one_pos64_lem w z, decrement-clear w z)
          (ap (◌∷◌ (lowest w))
              (visit_decrement-ones n _ (omega (arith, ap (length {A = ℕ}) (ones-clear 0 w z))))
            ∙ ground arith
            ∙ sym (ones-clear 0 w z))
  ]

  -- The loops see every one of the word once, from the lowest up.
  pub set_bits-ones : (w : Word) → set_bits w ≡ ones 0 w
  set_bits-ones w = visit-ones (length w) w (length-ones-le 0 w)

  pub set_bits_decrement-ones : (w : Word) → set_bits_decrement w ≡ ones 0 w
  set_bits_decrement-ones w = visit_decrement-ones (length w) w (length-ones-le 0 w)

-- Membership as a test.
unfoldable pub has : ℕ → List ℕ → Bool
has i [] = false
has i (k ∷ ks) = (i == k) || has i ks

has-ones_below : (j i : ℕ) (w : Word) → i < j → has i (ones j w) ≡ false
unfolding ones has
has-ones_below j i [] h = refl
has-ones_below j i (true ∷ w) h = ground (arith, has-ones_below (j + 1) i w)
has-ones_below j i (false ∷ w) h = has-ones_below (j + 1) i w (omega arith)

has-ones_from : (j i m : ℕ) (w : Word) → m ≡ j + i → has m (ones j w) ≡ test_bit w i
unfolding ones has
has-ones_from j i m [] e = refl
has-ones_from j zero m (true ∷ w) e = ground arith
has-ones_from j zero m (false ∷ w) e = has-ones_below (j + 1) m w (omega arith)
has-ones_from j (suc i) m (true ∷ w) e = ground (arith, has-ones_from (j + 1) i m w (omega arith))
has-ones_from j (suc i) m (false ∷ w) e = has-ones_from (j + 1) i m w (omega arith)

pub has-ones : (i : ℕ) (w : Word) → has i (ones 0 w) ≡ test_bit w i
has-ones i w = has-ones_from 0 i i w (omega arith)

-- All positions are below a bound.
abbrev pub AllBelow : ℕ → List ℕ → Type 0
AllBelow n [] = Unit {0}
AllBelow n (k ∷ ks) = (k < n) × AllBelow n ks

ones-AllBelow_from : (j n : ℕ) (w : Word) → j + length w ≤ n → AllBelow n (ones j w)
unfolding ones
ones-AllBelow_from j n [] h = tt
ones-AllBelow_from j n (true ∷ w) h = (omega arith, ones-AllBelow_from (j + 1) n w (omega arith))
ones-AllBelow_from j n (false ∷ w) h = ones-AllBelow_from (j + 1) n w (omega arith)

pub ones-AllBelow : (n : ℕ) (w : Word) → length w ≤ n → AllBelow n (ones 0 w)
ones-AllBelow n w h = ones-AllBelow_from 0 n w (omega arith)

-- The body `if (test) result |= bit;` over the visited rows.
pub collect : ℕ → (ℕ → Bool) → Word → List ℕ → Word
collect width p result [] = result
collect width p result (k ∷ ks) =
    collect width p (if p k then bit_or result (one_at width k) else result) ks

pub length-collect :
    (width : ℕ) (p : ℕ → Bool) (ks : List ℕ) (result : Word)
    → length result ≡ width
    → length (collect width p result ks) ≡ width
unfolding collect
length-collect width p [] result h = h
length-collect width p (k ∷ ks) result h =
    length-collect width p ks (if p k then bit_or result (one_at width k) else result)
      (ground (arith, length-or result (one_at width k), length-one_at width k))

collect_kept :
    (t e h q : Bool) → (e ≡ true → q ≡ true) → (t || e) || (h && q) ≡ t || ((e || h) && q)
collect_kept t true h q i = rw (i refl) (ground arith)
collect_kept t false h q i = ground arith

collect_skipped : (t e h q : Bool) → (e ≡ true → q ≡ false) → t || (h && q) ≡ t || ((e || h) && q)
collect_skipped t true h q i = rw (i refl) (ground arith)
collect_skipped t false h q i = refl

pub test_bit-collect :
    (width : ℕ) (p : ℕ → Bool) (i : ℕ) (ks : List ℕ) (result : Word)
    → AllBelow width ks
    → test_bit (collect width p result ks) i ≡ test_bit result i || (has i ks && p i)
unfolding collect has
test_bit-collect width p i [] result h = ground arith
test_bit-collect width p i (k ∷ ks) result h =
    test_bit-collect width p i ks (if p k then bit_or result (one_at width k) else result) h.1
    ∙ elim (Bool-cases (p k)) [
      | inl keep ↦
          rw (keep, test_bit-or, test_bit-one_at width k i h.0)
            (collect_kept (test_bit result i) (i == k) (has i ks) (p i)
              (λ e. ap p ((==_iff i k).0 e) ∙ keep))
      | inr skip ↦ rw skip (
          collect_skipped (test_bit result i) (i == k) (has i ks) (p i)
            (λ e. ap p ((==_iff i k).0 e) ∙ skip))
    ]
