-- ===== src/Kernels/Filter.antt =====
-- kernels/int4.c and kernels/int4_simd.c: filtering a selection by a comparison with a scalar, on
-- the scalar and on the SIMD path.
pub mod Scalar
pub mod Simd
pub mod Agree
use pg_batch.Prelude.{
  ℕ, zero, suc, ◌+◌, ◌-◌, ◌*◌, ◌/◌, ◌%◌, ◌≤◌, ◌≡◌, Bool, true, false, not, ◌&&◌, ◌||◌, List, [],
  ◌∷◌, ◌++◌, Option, none, some, arith, length, get_or, replicate, ltb, leb, if◌then◌else◌, min,
}
use pg_batch.Prelude.Int.{ℤ, pos, negsuc}
use pg_batch.Bits.{Word, is_zero, bit_and, bit_or, one_at, zeros, shift_left, same}
use pg_batch.Bits.Ones.{set_bits, collect}
use pg_batch.Postgres.{PgBitutils}
use pg_batch.Batch.Selection.{Selection}
use pg_batch.Kernels.Vector.{Int4Vector, datum, packed, row_is_null, row_value}
use pg_batch.Kernels.Mask.{word_mask}
use pg_batch.Kernels.Compare.{Int4Op, eq, ne, lt, le, gt, ge, compare, eqb_ℤ}
use pg_batch.Prelude.Int.{ltb_ℤ}

-- Lane by lane, over two registers.
abbrev pub zip_lanes {ℓ κ} : {A : Type ℓ} {B : Type κ} → (A → A → B) → List A → List A → List B
zip_lanes f (a ∷ x) (b ∷ y) = f a b ∷ zip_lanes f x y
zip_lanes f _ _ = []

-- The SSE2 intrinsics of the file, on registers of four int32 lanes: a mask is one bit for each lane.
pub record Sse2 : Type 0 where
  pub set1_epi32 : ℤ → List ℤ
  pub cmpeq_epi32 : List ℤ → List ℤ → List Bool
  pub cmpgt_epi32 : List ℤ → List ℤ → List Bool
  pub xor_si128 : List Bool → List Bool → List Bool
  -- _mm_shuffle_epi32(x, _MM_SHUFFLE(d, c, b, a))
  pub shuffle_epi32 : List ℤ → ℕ → ℕ → ℕ → ℕ → List ℤ
  pub unpacklo_epi64 : List ℤ → List ℤ → List ℤ
  pub set1_epi32_lem : (a : ℤ) → set1_epi32 a ≡ a ∷ a ∷ a ∷ a ∷ []
  pub cmpeq_epi32_lem : (x y : List ℤ) → cmpeq_epi32 x y ≡ zip_lanes eqb_ℤ x y
  pub cmpgt_epi32_lem : (x y : List ℤ) → cmpgt_epi32 x y ≡ zip_lanes (λ a b. ltb_ℤ b a) x y
  pub xor_si128_lem :
      (x y : List Bool) → xor_si128 x y ≡ zip_lanes (λ a b. if a then not b else b) x y
  pub shuffle_epi32_lem :
      (x : List ℤ) (d c b a : ℕ)
      → shuffle_epi32 x d c b a
        ≡ get_or x a (pos 0) ∷ get_or x b (pos 0) ∷ get_or x c (pos 0) ∷ get_or x d (pos 0) ∷ []
  pub unpacklo_epi64_lem :
      (x y : List ℤ)
      → unpacklo_epi64 x y
        ≡ get_or x 0 (pos 0) ∷ get_or x 1 (pos 0) ∷ get_or y 0 (pos 0) ∷ get_or y 1 (pos 0) ∷ []

-- memchr(isnull + first_row, true, nrows) == NULL
no_null : List Bool → ℕ → ℕ → Bool
no_null isnull first_row zero = true
no_null isnull first_row (suc n) =
    not (get_or isnull first_row false) && no_null isnull (first_row + 1) n

module _ ⦃pg : PgBitutils⦄ where
  -- The `switch` runs one comparison in the loop over the rows' bits.
  pub scalar_compare : Int4Vector → ℕ → Word → Int4Op → ℤ → Word
  scalar_compare column first_row rows op scalar =
      collect 64
        (λ bitno.
          not (row_is_null column (first_row + bitno))
          && compare (row_value column (first_row + bitno)) scalar op)
        (zeros 64) (set_bits rows)

  -- The loop at the end of not_null_mask.
  not_null_loop : Int4Vector → ℕ → Word → Word
  not_null_loop column first_row rows =
      collect 64 (λ bitno. not (row_is_null column (first_row + bitno))) (zeros 64) (set_bits rows)

  unfoldable pub not_null_mask : Int4Vector → ℕ → ℕ → Word → Word
  unfolding not_null_loop no_null
  not_null_mask (packed values none offset) first_row nrows rows = rows
  not_null_mask (packed values (some validity) offset) first_row nrows rows =
      not_null_loop (packed values (some validity) offset) first_row rows
  not_null_mask (datum values isnull) first_row nrows rows =
      if same rows (word_mask nrows 0) && no_null isnull first_row nrows
      then rows
      else not_null_loop (datum values isnull) first_row rows

-- The 64 bits of the Datum of an int32, which is sign-extended, as two lanes, the lower half first.
datum_lanes : ℤ → List ℤ
datum_lanes a = a ∷ (if ltb_ℤ a (pos 0) then negsuc 0 else pos 0) ∷ []

-- _mm_loadu_si128 at an array of Datum, which loads two of them.
load_two_datums : List ℤ → ℕ → List ℤ
unfolding datum_lanes
load_two_datums values row =
    datum_lanes (get_or values row (pos 0)) ++ datum_lanes (get_or values (row + 1) (pos 0))

-- _mm_loadu_si128 at an array of int32.
load_packed_values : List ℤ → ℕ → List ℤ
load_packed_values values row =
    get_or values row (pos 0)
    ∷ get_or values (row + 1) (pos 0)
    ∷ get_or values (row + 2) (pos 0)
    ∷ get_or values (row + 3) (pos 0)
    ∷ []

-- `(uint64) comparison_mask(comparison) << row`: movemask puts lane i into bit i.
mask_at : List Bool → ℕ → Word
mask_at lanes row = shift_left (lanes ++ replicate (64 - length lanes) false) row

-- `for (; row < nrows; row++)`, over the rows that are left.
simd_tail : ℕ → Int4Vector → ℕ → Int4Op → ℤ → ℕ → Word → Word
simd_tail zero column first_row op scalar row result = result
simd_tail (suc left) column first_row op scalar row result =
    simd_tail left column first_row op scalar (row + 1) (
      if compare (row_value column (first_row + row)) scalar op
      then bit_or result (one_at 64 row)
      else result)

module _ (sse : Sse2) where
  load_datum_values : List ℤ → ℕ → List ℤ
  unfolding load_two_datums
  load_datum_values values row =
      let first = sse.shuffle_epi32 (load_two_datums values row) 2 0 2 0 in
      let second = sse.shuffle_epi32 (load_two_datums values (row + 2)) 2 0 2 0 in
      sse.unpacklo_epi64 first second

  -- Four values of a column.
  load_values : Int4Vector → ℕ → List ℤ
  unfolding load_datum_values load_packed_values
  load_values (datum values isnull) row = load_datum_values values row
  load_values (packed values validity offset) row = load_packed_values values (offset + row)

  -- INT4_ALL(left)
  all_lanes : List ℤ → List Bool
  all_lanes left = sse.cmpeq_epi32 left left

  -- INT4_EQ … INT4_GE
  lane_compare : Int4Op → List ℤ → List ℤ → List Bool
  lane_compare eq left right = sse.cmpeq_epi32 left right
  lane_compare ne left right = sse.xor_si128 (sse.cmpeq_epi32 left right) (all_lanes left)
  lane_compare lt left right = sse.cmpgt_epi32 right left
  lane_compare le left right = sse.xor_si128 (sse.cmpgt_epi32 left right) (all_lanes left)
  lane_compare gt left right = sse.cmpgt_epi32 left right
  lane_compare ge left right = sse.xor_si128 (sse.cmpgt_epi32 right left) (all_lanes left)

  -- `for (; row + 4 <= nrows; row += 4)`: the result and the row where the loop stops. Each round
  -- takes four rows, so `nrows` rounds are enough.
  simd_groups : ℕ → Int4Vector → ℕ → ℕ → Int4Op → ℤ → ℕ → Word → Word × ℕ
  simd_groups zero column first_row nrows op scalar row result = (result, row)
  simd_groups (suc fuel) column first_row nrows op scalar row result =
      let lanes = lane_compare op (load_values column (first_row + row)) (sse.set1_epi32 scalar) in
      let rest =
        simd_groups fuel column first_row nrows op scalar (row + 4)
          (bit_or result (mask_at lanes row)) in
      if leb (row + 4) nrows then rest else (result, row)

  pub simd_compare : Int4Vector → ℕ → ℕ → Int4Op → ℤ → Word
  unfolding simd_groups simd_tail load_values lane_compare all_lanes mask_at
  simd_compare column first_row nrows op scalar =
      let (result, row) = simd_groups nrows column first_row nrows op scalar 0 (zeros 64) in
      simd_tail (nrows - row) column first_row op scalar row result

-- `available` is what the build knows: USE_NEON or USE_SSE2.
module _ ⦃pg : PgBitutils⦄ (sse : Sse2) (available : Bool) where
  pub filter_word : Int4Vector → ℕ → Int4Op → ℤ → Bool → ℕ → Word → Word
  filter_word column nrows op scalar enable_simd word w =
      let rows = bit_and w (word_mask nrows word) in
      let first_row = word * 64 in
      let word_nrows = min 64 (nrows - first_row) in
      let passing = simd_compare sse column first_row word_nrows op scalar in
      if is_zero rows
      then w
      else if (enable_simd && available) && same rows (word_mask nrows word) && leb 4 word_nrows
      then bit_and rows (bit_and passing (not_null_mask column first_row word_nrows rows))
      else scalar_compare column first_row rows op scalar

  filter_words : Int4Vector → ℕ → Int4Op → ℤ → Bool → ℕ → List Word → List Word
  filter_words column nrows op scalar enable_simd word [] = []
  filter_words column nrows op scalar enable_simd word (w ∷ ws) =
      filter_word column nrows op scalar enable_simd word w
      ∷ filter_words column nrows op scalar enable_simd (word + 1) ws

  -- pg_batch_filter_int4
  pub filter_int4 : Int4Vector → Selection → Int4Op → ℤ → Bool → Selection
  unfolding filter_words filter_word scalar_compare
  filter_int4 column s op scalar enable_simd = record s {
    words = filter_words column s.nrows op scalar enable_simd 0 s.words;
  }
