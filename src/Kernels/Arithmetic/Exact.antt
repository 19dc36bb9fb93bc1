-- ===== src/Kernels/Arithmetic/Exact.antt =====
-- kernels/int4.c: int4_arithmetic gives the exact result where it fits an int32, and else an error.
use native.Mathlib.Nat.{div-add-mod}
use pg_batch.Prelude.{
  ℕ, zero, suc, ◌*◌, ◌/◌, ◌%◌, ◌≤◌, ◌≡◌, refl, ap, inl, inr, true, false, not, ◌&&◌, Option, none,
  some, arith, if◌then◌else◌, Bool-cases,
}
use pg_batch.Prelude.Int.{ℤ, pos, negsuc, ◌+ℤ◌, ◌-ℤ◌, ◌*ℤ◌}
use pg_batch.Prelude.Result.{Result, ok, err, ◌>>=◌}
use pg_batch.Postgres.{PgInt, fits_int32}
use pg_batch.Kernels.Compare.{eqb_ℤ}
use pg_batch.Kernels.Arithmetic.{
  ArithmeticOp, add, subtract, multiply, divide, modulo, negate, ArithmeticError, division_by_zero,
  out_of_range, neg, quotient, remainder, int32_min, int4_arithmetic, or_overflow,
}

-- The operation over the integers, with no bound.
abbrev pub exact : ℤ → ℤ → ArithmeticOp → Result ArithmeticError ℤ
exact a b add = ok (a +ℤ b)
exact a b subtract = ok (a -ℤ b)
exact a b multiply = ok (a *ℤ b)
exact a b divide = if eqb_ℤ b (pos 0) then err division_by_zero else ok (quotient a b)
exact a b modulo = if eqb_ℤ b (pos 0) then err division_by_zero else ok (remainder a b)
exact a b negate = ok (pos 0 -ℤ a)

-- The int32 range check.
abbrev pub in_range : ℤ → Result ArithmeticError ℤ
in_range r = if fits_int32 r then ok r else err out_of_range

div-le : (a b : ℕ) → a / b ≤ a
div-le a zero = omega arith
div-le a (suc b) = grind (arith, div-add-mod a (suc b))

div_half : (a b : ℕ) → 2 ≤ b → a / b * 2 ≤ a
div_half a b h = grind (arith, div-add-mod a b)

mod-le : (a b : ℕ) → a % b ≤ a
mod-le a b = omega arith

fits_neg : (n : ℕ) → n ≤ 0x8000_0000 → fits_int32 (neg n) ≡ true
fits_neg zero h = ground arith
fits_neg (suc n) h = ground arith

quotient-fits :
    (a b : ℤ)
    → fits_int32 a ≡ true
    → eqb_ℤ b (negsuc 0) && eqb_ℤ a int32_min ≡ false
    → fits_int32 (quotient a b) ≡ true
unfolding quotient
quotient-fits (pos a) (pos b) h k = ground (arith, div-le a b)
quotient-fits (pos a) (negsuc b) h k = fits_neg (a / suc b) (ground (arith, div-le a (suc b)))
quotient-fits (negsuc a) (pos b) h k = fits_neg (suc a / b) (ground (arith, div-le (suc a) b))
quotient-fits (negsuc a) (negsuc zero) h k = ground arith
quotient-fits (negsuc a) (negsuc (suc b)) h k =
    let half = div_half (suc a) (suc (suc b)) (omega arith) in ground (arith, half)

remainder-fits : (a b : ℤ) → fits_int32 a ≡ true → fits_int32 (remainder a b) ≡ true
unfolding remainder
remainder-fits (pos a) (pos b) h = ground (arith, mod-le a b)
remainder-fits (pos a) (negsuc b) h = ground (arith, mod-le a (suc b))
remainder-fits (negsuc a) (pos b) h = fits_neg (suc a % b) (ground (arith, mod-le (suc a) b))
remainder-fits (negsuc a) (negsuc b) h =
    fits_neg (suc a % suc b) (ground (arith, mod-le (suc a) (suc b)))

remainder-one : (a : ℤ) → remainder a (negsuc 0) ≡ pos 0
unfolding remainder
remainder-one (pos a) = ap pos (omega arith)
remainder-one (negsuc a) = let e : suc a % 1 ≡ 0 = omega arith in rw e

quotient-min : quotient int32_min (negsuc 0) ≡ pos 0x8000_0000
unfolding quotient
quotient-min = refl

pub eqb_eq : (a b : ℤ) → eqb_ℤ a b ≡ true → a ≡ b
eqb_eq (pos a) (pos b) h = ap pos (ground arith)
eqb_eq (pos a) (negsuc b) h = absurd (ground arith)
eqb_eq (negsuc a) (pos b) h = absurd (ground arith)
eqb_eq (negsuc a) (negsuc b) h = ap negsuc (ground arith)

negate-fits : (a : ℤ) → fits_int32 a ≡ true → fits_int32 (pos 0 -ℤ a) ≡ not (eqb_ℤ a int32_min)
unfolding ◌-ℤ◌
negate-fits (pos a) h = ground arith
negate-fits (negsuc a) h = ground arith

module _ ⦃int : PgInt⦄ where
  checked :
      (f : Option ℤ) (r : ℤ)
      → (fits_int32 r ≡ true → f ≡ some r)
      → (fits_int32 r ≡ false → f ≡ none)
      → or_overflow f ≡ in_range r
  checked f r fits over = elim (Bool-cases (fits_int32 r)) [
    | inl t ↦ rw (t, fits t)
    | inr t ↦ rw (t, over t)
  ]

  -- On int32 operands each of the six operations gives the exact integer result if that fits an
  -- int32, the error division_by_zero for a zero divisor, and else the error out_of_range.
  pub int4_arithmetic-exact :
      (a b : ℤ) (op : ArithmeticOp)
      → fits_int32 a ≡ true
      → fits_int32 b ≡ true
      → int4_arithmetic a b op ≡ exact a b op >>= in_range
  unfolding int4_arithmetic
  int4_arithmetic-exact a b add ha hb =
      checked (int.add_s32 a b) (a +ℤ b) (int.add_s32-fits a b) (int.add_s32-overflow a b)
  int4_arithmetic-exact a b subtract ha hb =
      checked (int.sub_s32 a b) (a -ℤ b) (int.sub_s32-fits a b) (int.sub_s32-overflow a b)
  int4_arithmetic-exact a b multiply ha hb =
      checked (int.mul_s32 a b) (a *ℤ b) (int.mul_s32-fits a b) (int.mul_s32-overflow a b)
  int4_arithmetic-exact a b divide ha hb = elim (Bool-cases (eqb_ℤ b (pos 0))) [
    | inl z ↦ rw z
    | inr n ↦ rw n (elim (Bool-cases (eqb_ℤ b (negsuc 0) && eqb_ℤ a int32_min)) [
      | inl m ↦
          let p : b ≡ negsuc 0 = eqb_eq b (negsuc 0) (ground arith) in
          let q : a ≡ int32_min = eqb_eq a int32_min (ground arith) in
          rw m (rw (p, q, quotient-min))
      | inr o ↦ rw (o, quotient-fits a b ha o)
    ])
  ]
  int4_arithmetic-exact a b modulo ha hb = elim (Bool-cases (eqb_ℤ b (pos 0))) [
    | inl z ↦ rw z
    | inr n ↦ rw n (elim (Bool-cases (eqb_ℤ b (negsuc 0))) [
      | inl m ↦ rw (m, eqb_eq b (negsuc 0) m, remainder-one a)
      | inr o ↦ rw (o, remainder-fits a b ha)
    ])
  ]
  int4_arithmetic-exact a b negate ha hb =
      rw (negate-fits a ha) (elim (Bool-cases (eqb_ℤ a int32_min)) [ inl m ↦ rw m | inr o ↦ rw o ])
