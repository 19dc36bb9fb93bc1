-- ===== src/Spill/Block/Store.antt =====
-- spill/spill.c: storing a row in a block appends it to the block's rows and touches no other row.
use pg_batch.Prelude.{
  ℕ, zero, suc, ◌+◌, ◌*◌, ◌/◌, ◌%◌, ◌≤◌, ◌<◌, ◌≡◌, ◌≢◌, refl, ap, ◌∙◌, inl, inr, Bool, true, false,
  [], ◌∷◌, ◌++◌, Option, none, some, arith, length, ◌==◌, ==_iff, if◌then◌else◌, Bool-cases,
}
use pg_batch.Prelude.Int.{ℤ}
use pg_batch.Bits.{one_at}
use pg_batch.Bits.Laws.{test_bit-or, test_bit-one_at, length-or, length-one_at}
use pg_batch.Spill.Block.{SpillWriter, store_cell, tabulate, valid_at, cell_at}

module _ {ℓ} {A : Type ℓ} where
  pub tabulate_congr :
      (start n : ℕ) (f g : ℕ → A)
      → ((i : ℕ) → start ≤ i → i < start + n → f i ≡ g i)
      → tabulate start n f ≡ tabulate start n g
  unfolding tabulate
  tabulate_congr start zero f g h = refl
  tabulate_congr start (suc n) f g h = rw (
    h start (omega arith) (omega arith),
    tabulate_congr (start + 1) n f g (λ i a b. h i (omega arith) (omega arith)),
  )

  pub tabulate_snoc :
      (start n : ℕ) (f : ℕ → A)
      → tabulate start (suc n) f ≡ tabulate start n f ++ f (start + n) ∷ []
  unfolding tabulate
  tabulate_snoc start zero f = let e : start + 0 ≡ start = omega arith in rw e
  tabulate_snoc start (suc n) f =
      let e : start + suc n ≡ start + 1 + n = omega arith in
      ap (◌∷◌ (f start)) (tabulate_snoc (start + 1) n f ∙ rw e)

-- The cell that a pair of a value and a validity bit stands for.
abbrev pub stored : ℤ × Bool → Option ℤ
stored (value, valid) = if valid then some value else none

abbrev pub HasBytes : SpillWriter → Type 0
HasBytes w = (k : ℕ) → length (w.validity k) ≡ 8

pub store_cell-HasBytes :
    (column dest : ℕ) (cell : ℤ × Bool) (w : SpillWriter)
    → HasBytes w
    → HasBytes (store_cell column dest cell w)
unfolding store_cell
store_cell-HasBytes column dest (value, true) w h k = ground (
  arith,
  h k,
  h (column * 8 + dest / 8),
  length-or (w.validity (column * 8 + dest / 8)) (one_at 8 (dest % 8)),
  length-one_at 8 (dest % 8),
)
store_cell-HasBytes column dest (value, false) w h k = h k

-- The bit of a row in a column, and of another, in a byte that one of them is put into.
same_bit :
    (c r column dest : ℕ)
    → r < 64
    → dest < 64
    → ((c ≡ column) × (r ≡ dest) → ⊥)
    → c * 8 + r / 8 ≡ column * 8 + dest / 8
    → r % 8 ≢ dest % 8
same_bit c r column dest hr hd other e m = other (omega arith, omega arith)

pub valid_at-store_other :
    (column dest : ℕ) (cell : ℤ × Bool) (w : SpillWriter) (c r : ℕ)
    → r < 64
    → dest < 64
    → ((c ≡ column) × (r ≡ dest) → ⊥)
    → valid_at (store_cell column dest cell w) c r ≡ valid_at w c r
unfolding store_cell
valid_at-store_other column dest (value, false) w c r hr hd other = refl
valid_at-store_other column dest (value, true) w c r hr hd other =
    elim (Bool-cases (c * 8 + r / 8 == column * 8 + dest / 8)) [
      | inl e ↦
          let same : c * 8 + r / 8 ≡ column * 8 + dest / 8 = (==_iff _ _).0 e in
          let apart = same_bit c r column dest hr hd other same in
          let off : (r % 8 == dest % 8) ≡ false = ground arith in
          rw
            (
              e,
              test_bit-or (w.validity (column * 8 + dest / 8)) (one_at 8 (dest % 8)) (r % 8),
              test_bit-one_at 8 (dest % 8) (r % 8) (omega arith),
              off,
              same,
            )
            (ground arith)
      | inr e ↦ rw e
    ]

values-store_other :
    (column dest : ℕ) (cell : ℤ × Bool) (w : SpillWriter) (c r : ℕ)
    → r < 64
    → dest < 64
    → ((c ≡ column) × (r ≡ dest) → ⊥)
    → (store_cell column dest cell w).values (c * 64 + r) ≡ w.values (c * 64 + r)
unfolding store_cell
values-store_other column dest (value, valid) w c r hr hd other =
    let off : (c * 64 + r == column * 64 + dest) ≡ false =
      elim (Bool-cases (c * 64 + r == column * 64 + dest)) [
        | inl e ↦
            let same : c * 64 + r ≡ column * 64 + dest = (==_iff _ _).0 e in
            absurd (other (omega arith, omega arith))
        | inr e ↦ e
      ] in
    rw off

pub cell_at-store_other :
    (column dest : ℕ) (cell : ℤ × Bool) (w : SpillWriter) (c r : ℕ)
    → r < 64
    → dest < 64
    → ((c ≡ column) × (r ≡ dest) → ⊥)
    → cell_at (store_cell column dest cell w) c r ≡ cell_at w c r
cell_at-store_other column dest cell w c r hr hd other = rw (
  valid_at-store_other column dest cell w c r hr hd other,
  values-store_other column dest cell w c r hr hd other,
)

pub cell_at-store_cell :
    (column dest : ℕ) (cell : ℤ × Bool) (w : SpillWriter)
    → dest < 64
    → valid_at w column dest ≡ false
    → cell_at (store_cell column dest cell w) column dest ≡ stored cell
unfolding store_cell
cell_at-store_cell column dest (value, false) w hd h = rw h
cell_at-store_cell column dest (value, true) w hd h =
    let at_byte : (column * 8 + dest / 8 == column * 8 + dest / 8) ≡ true = ground arith in
    let at_value : (column * 64 + dest == column * 64 + dest) ≡ true = ground arith in
    let at_bit : (dest % 8 == dest % 8) ≡ true = ground arith in
    rw
      (
        at_byte,
        at_value,
        test_bit-or (w.validity (column * 8 + dest / 8)) (one_at 8 (dest % 8)) (dest % 8),
        test_bit-one_at 8 (dest % 8) (dest % 8) (omega arith),
        at_bit,
      )
      (ground arith)
