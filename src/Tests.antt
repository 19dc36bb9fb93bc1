-- ===== src/Tests.antt =====
-- Concrete values of what PostgreSQL and the compiler provide, a sample batch, and the theorems and
-- the code at that batch.
mod Rows
mod Columns
mod Limits
mod Bindings
mod Expressions
mod Snapshots
mod Spills
mod Participants
mod Hashes
mod Executors
mod Requests
use pg_batch.Prelude.{
  ℕ, zero, suc, ◌+◌, ◌/◌, ◌%◌, ◌≤◌, ◌<◌, ◌≡◌, refl, ◌∙◌, Bool, true, false, not, List, [], ◌∷◌,
  Option, none, some, arith, length, get_or, replicate, get_or-replicate, if◌then◌else◌, ap, inl,
  inr, Bool-cases, ◌==◌, ==_iff,
}
use pg_batch.Prelude.Int.{ℤ, pos, negsuc, ◌+ℤ◌, ◌-ℤ◌, ◌*ℤ◌, ltb_ℤ}
use pg_batch.Bits.{Word, ones, lowest, test_bit}
use pg_batch.Postgres.{PgBitutils, PgInt, fits_int32}
use pg_batch.Batch.Selection.{Selection, IsWellFormed, contains}
use pg_batch.Batch.Selection.Rows.{contains-test_bit}
use pg_batch.Kernels.Compare.{eqb_ℤ}
use pg_batch.Kernels.Filter.{Sse2, zip_lanes}
use pg_batch.Kernels.Vector.{Int4Vector, datum}

instance abbrev bitutils : PgBitutils
unfolding ones lowest
bitutils = record {
  rightmost_one_pos64 = lowest;
  popcount64 = λ w. length (ones 0 w);
  rightmost_one_pos64_lem = λ w h. refl;
  popcount64_lem = λ w. refl;
}

abbrev if_fits : ℤ → Option ℤ
if_fits r = if fits_int32 r then some r else none

if_fits-true : (r : ℤ) → fits_int32 r ≡ true → if_fits r ≡ some r
if_fits-true r h = rw h

if_fits-false : (r : ℤ) → fits_int32 r ≡ false → if_fits r ≡ none
if_fits-false r h = rw h

instance abbrev int : PgInt
unfolding ◌+ℤ◌ ◌-ℤ◌ ◌*ℤ◌
int = record {
  add_s32 = λ a b. if_fits (a +ℤ b);
  sub_s32 = λ a b. if_fits (a -ℤ b);
  mul_s32 = λ a b. if_fits (a *ℤ b);
  add_s32-fits = λ a b. if_fits-true (a +ℤ b);
  add_s32-overflow = λ a b. if_fits-false (a +ℤ b);
  sub_s32-fits = λ a b. if_fits-true (a -ℤ b);
  sub_s32-overflow = λ a b. if_fits-false (a -ℤ b);
  mul_s32-fits = λ a b. if_fits-true (a *ℤ b);
  mul_s32-overflow = λ a b. if_fits-false (a *ℤ b);
}

abbrev sse2 : Sse2
sse2 = record {
  set1_epi32 = λ a. a ∷ a ∷ a ∷ a ∷ [];
  cmpeq_epi32 = zip_lanes eqb_ℤ;
  cmpgt_epi32 = zip_lanes (λ a b. ltb_ℤ b a);
  xor_si128 = zip_lanes (λ a b. if a then not b else b);
  shuffle_epi32 = λ x d c b a.
      get_or x a (pos 0) ∷ get_or x b (pos 0) ∷ get_or x c (pos 0) ∷ get_or x d (pos 0) ∷ [];
  unpacklo_epi64 =
      λ x y. get_or x 0 (pos 0) ∷ get_or x 1 (pos 0) ∷ get_or y 0 (pos 0) ∷ get_or y 1 (pos 0) ∷ [];
  shuffle_epi32_lem = λ x d c b a. refl;
  unpacklo_epi64_lem = λ x y. refl;
  set1_epi32_lem = λ a. refl;
  cmpeq_epi32_lem = λ x y. refl;
  cmpgt_epi32_lem = λ x y. refl;
  xor_si128_lem = λ x y. refl;
}

-- Five rows, of which 0, 1, 3 and 4 are selected.
abbrev five_word : Word
five_word = true ∷ true ∷ false ∷ true ∷ true ∷ replicate 59 false

abbrev five : Selection
five = record { nrows = 5; words = five_word ∷ [] }

five_beyond : (i : ℕ) → 5 ≤ i → test_bit five_word i ≡ false
five_beyond zero h = absurd (omega arith)
five_beyond (suc zero) h = absurd (omega arith)
five_beyond (suc (suc zero)) h = absurd (omega arith)
five_beyond (suc (suc (suc zero))) h = absurd (omega arith)
five_beyond (suc (suc (suc (suc zero)))) h = absurd (omega arith)
five_beyond (suc (suc (suc (suc (suc i))))) h = get_or-replicate 59 i false

five_widths : (k : ℕ) → k < 1 → length (get_or (five_word ∷ []) k []) ≡ 64
five_widths zero h = refl
five_widths (suc k) h = absurd (omega arith)

five_within : (row : ℕ) → 5 ≤ row → contains five row ≡ false
five_within row h = contains-test_bit five row ∙ by_word (row / 64) refl
  where
    by_word : (k : ℕ) → row / 64 ≡ k → test_bit (get_or (five_word ∷ []) k []) (row % 64) ≡ false
    by_word zero e = five_beyond (row % 64) (omega arith)
    by_word (suc k) e = refl

five-IsWellFormed : IsWellFormed five
five-IsWellFormed = record { enough = refl; widths = five_widths; within = five_within }

-- 7, null, 9, -5, 100
abbrev column : Int4Vector
column =
    datum (pos 7 ∷ pos 0 ∷ pos 9 ∷ negsuc 4 ∷ pos 100 ∷ [])
      (false ∷ true ∷ false ∷ false ∷ false ∷ [])
