-- ===== src/Kernels/Filter/Simd.antt =====
-- kernels/int4_simd.c: the SIMD comparison computes the scalar one for each row of a word.
use pg_batch.Prelude.{
  ℕ, zero, suc, ◌+◌, ◌-◌, ◌≤◌, ◌<◌, ◌≡◌, refl, ap, sym, ◌∙◌, inl, inr, Bool, true, false, not, ◌&&◌,
  ◌||◌, List, [], ◌∷◌, arith, length, replicate, ltb, leb, ◌==◌, ==_iff, if◌then◌else◌, Bool-cases,
  get_or, get_or-replicate, length-replicate,
}
use pg_batch.Prelude.Int.{ℤ, pos, ltb_ℤ}
use pg_batch.Bits.{Word, test_bit, bit_or, one_at, zeros}
use pg_batch.Bits.Laws.{
  test_bit-or, test_bit-one_at, test_bit-shift_left_word, length-or, length-one_at,
  length-shift_left,
}
use pg_batch.Kernels.Vector.{Int4Vector, datum, packed, row_value}
use pg_batch.Kernels.Compare.{Int4Op, eq, ne, lt, le, gt, ge, compare, eqb_ℤ, leb_ℤ}
use pg_batch.Kernels.Filter.{
  Sse2, simd_compare, simd_groups, simd_tail, lane_compare, all_lanes, datum_lanes, load_two_datums,
  load_datum_values, load_packed_values, load_values, mask_at,
}

flip_eq : (a s : ℤ) → (if eqb_ℤ a s then not (eqb_ℤ a a) else eqb_ℤ a a) ≡ not (eqb_ℤ a s)
flip_eq a s = ground arith

flip_le : (a s : ℤ) → (if ltb_ℤ s a then not (eqb_ℤ a a) else eqb_ℤ a a) ≡ leb_ℤ a s
flip_le a s = ground arith

flip_ge : (a s : ℤ) → (if ltb_ℤ a s then not (eqb_ℤ a a) else eqb_ℤ a a) ≡ leb_ℤ s a
flip_ge a s = ground arith

four_values :
    {a b c d a' b' c' d' : ℤ}
    → a ≡ a'
    → b ≡ b'
    → c ≡ c'
    → d ≡ d'
    → ◌≡◌ {A = List ℤ} (a ∷ b ∷ c ∷ d ∷ []) (a' ∷ b' ∷ c' ∷ d' ∷ [])
four_values e f g h = rw (e, f, g, h)

-- The shuffle keeps the lower halves.
shuffled :
    (sse : Sse2) (values : List ℤ) (row : ℕ)
    → sse.shuffle_epi32 (load_two_datums values row) 2 0 2 0
      ≡ get_or values row (pos 0)
        ∷ get_or values (row + 1) (pos 0)
        ∷ get_or values row (pos 0)
        ∷ get_or values (row + 1) (pos 0)
        ∷ []
unfolding load_two_datums datum_lanes
shuffled sse values row = sse.shuffle_epi32_lem (load_two_datums values row) 2 0 2 0

-- Both layouts load the values of four rows.
load_values-row_value :
    (sse : Sse2) (column : Int4Vector) (row : ℕ)
    → load_values sse column row
      ≡ row_value column row
        ∷ row_value column (row + 1)
        ∷ row_value column (row + 2)
        ∷ row_value column (row + 3)
        ∷ []
unfolding load_values load_datum_values load_packed_values row_value
load_values-row_value sse (datum values isnull) row =
    let e : row + 2 + 1 ≡ row + 3 = omega arith in
    rw (sse.unpacklo_epi64_lem, shuffled sse values row, shuffled sse values (row + 2), e)
load_values-row_value sse (packed values validity offset) row =
    let value : (n m : ℕ) → n ≡ m → get_or values n (pos 0) ≡ get_or values m (pos 0) =
      λ n m e. ap (λ k. get_or values k (pos 0)) e in
    four_values refl (value (offset + row + 1) (offset + (row + 1)) (omega arith))
      (value (offset + row + 2) (offset + (row + 2)) (omega arith))
      (value (offset + row + 3) (offset + (row + 3)) (omega arith))

four :
    {a b c d a' b' c' d' : Bool}
    → a ≡ a'
    → b ≡ b'
    → c ≡ c'
    → d ≡ d'
    → ◌≡◌ {A = List Bool} (a ∷ b ∷ c ∷ d ∷ []) (a' ∷ b' ∷ c' ∷ d' ∷ [])
four p q r s = cc

module _ (sse : Sse2) where
  -- Whatever the comparison, each lane holds the scalar comparison.
  lane_compare-compare :
      (op : Int4Op) (a b c d scalar : ℤ)
      → lane_compare sse op (a ∷ b ∷ c ∷ d ∷ []) (sse.set1_epi32 scalar)
        ≡ compare a scalar op ∷ compare b scalar op ∷ compare c scalar op ∷ compare d scalar op ∷ []
  unfolding lane_compare all_lanes compare
  lane_compare-compare eq a b c d scalar = rw (sse.set1_epi32_lem scalar, sse.cmpeq_epi32_lem)
  lane_compare-compare ne a b c d scalar =
      rw (sse.set1_epi32_lem scalar, sse.xor_si128_lem, sse.cmpeq_epi32_lem, sse.cmpeq_epi32_lem)
        (four (flip_eq a scalar) (flip_eq b scalar) (flip_eq c scalar) (flip_eq d scalar))
  lane_compare-compare lt a b c d scalar = rw (sse.set1_epi32_lem scalar, sse.cmpgt_epi32_lem)
  lane_compare-compare le a b c d scalar =
      rw (sse.set1_epi32_lem scalar, sse.xor_si128_lem, sse.cmpgt_epi32_lem, sse.cmpeq_epi32_lem)
        (four (flip_le a scalar) (flip_le b scalar) (flip_le c scalar) (flip_le d scalar))
  lane_compare-compare gt a b c d scalar = rw (sse.set1_epi32_lem scalar, sse.cmpgt_epi32_lem)
  lane_compare-compare ge a b c d scalar =
      rw (sse.set1_epi32_lem scalar, sse.xor_si128_lem, sse.cmpgt_epi32_lem, sse.cmpeq_epi32_lem)
        (four (flip_ge a scalar) (flip_ge b scalar) (flip_ge c scalar) (flip_ge d scalar))

-- The bits of `result` below `row` are those of the test, and the others are clear.
abbrev Holds : (ℕ → Bool) → ℕ → Word → Type 0
Holds p row result =
    (length result ≡ 64) × ((i : ℕ) → i < 64 → test_bit result i ≡ ltb i row && p i)

lanes_bit :
    (p : ℕ → Bool) (row i : ℕ)
    → i < 64
    → test_bit (mask_at (p row ∷ p (row + 1) ∷ p (row + 2) ∷ p (row + 3) ∷ []) row) i
      ≡ (not (ltb i row) && ltb i (row + 4)) && p i
unfolding mask_at
lanes_bit p row i h =
    test_bit-shift_left_word _ row i (omega (arith, length-replicate 60 false))
    ∙ elim (Bool-cases (ltb i row)) [
      | inl below ↦ rw below
      | inr above ↦ rw above (lane (i - row) (ground arith))
    ]
  where
    lane :
        (k : ℕ)
        → i ≡ row + k
        → test_bit (p row ∷ p (row + 1) ∷ p (row + 2) ∷ p (row + 3) ∷ replicate 60 false) k
          ≡ ltb i (row + 4) && p i
    lane zero e = let f : i ≡ row = omega arith in rw f (ground arith)
    lane (suc zero) e = let f : i ≡ row + 1 = omega arith in rw f (ground arith)
    lane (suc (suc zero)) e = let f : i ≡ row + 2 = omega arith in rw f (ground arith)
    lane (suc (suc (suc zero))) e = let f : i ≡ row + 3 = omega arith in rw f (ground arith)
    lane (suc (suc (suc (suc k)))) e = get_or-replicate 60 k false ∙ ground arith

length-mask_at : (a b c d : Bool) (row : ℕ) → length (mask_at (a ∷ b ∷ c ∷ d ∷ []) row) ≡ 64
unfolding mask_at
length-mask_at a b c d row = length-shift_left _ row ∙ refl

join_bits : (l r q p : Bool) → (l ≡ true → r ≡ true) → l && p || ((not l && r) && p) ≡ r && p
join_bits true r q p h = rw (h refl) (ground arith)
join_bits false r q p h = refl

Holds-group :
    (p : ℕ → Bool) (row : ℕ) (result : Word)
    → Holds p row result
    → Holds p
        (row + 4)
        (bit_or result (mask_at (p row ∷ p (row + 1) ∷ p (row + 2) ∷ p (row + 3) ∷ []) row))
Holds-group p row result (w, h) = (
  length-or result _
        (w ∙ sym (length-mask_at (p row) (p (row + 1)) (p (row + 2)) (p (row + 3)) row))
      ∙ w,
  λ i b.
      test_bit-or result _ i
      ∙ rw (h i b, lanes_bit p row i b)
          (join_bits (ltb i row) (ltb i (row + 4)) true (p i) (λ e. ground arith)),
)

Holds-one :
    (p : ℕ → Bool) (row : ℕ) (result : Word)
    → row < 64
    → Holds p row result
    → Holds p (row + 1) (if p row then bit_or result (one_at 64 row) else result)
Holds-one p row result small (w, h) = elim (Bool-cases (p row)) [
  | inl on ↦ rw on (
    length-or result (one_at 64 row) (w ∙ sym (length-one_at 64 row)) ∙ w,
    λ i b.
        test_bit-or result (one_at 64 row) i
        ∙ rw (h i b, test_bit-one_at 64 row i small)
            (elim (Bool-cases (i == row)) [
              | inl here ↦ let e : i ≡ row = (==_iff i row).0 here in rw e (rw on (ground arith))
              | inr other ↦ ground arith
            ]),
  )
  | inr off ↦ rw off (
    w,
    λ i b. h i b ∙ elim (Bool-cases (i == row)) [
      | inl here ↦ let e : i ≡ row = (==_iff i row).0 here in rw e (rw off (ground arith))
      | inr other ↦ ground arith
    ],
  )
]

module _ (sse : Sse2) (column : Int4Vector) (first_row : ℕ) (op : Int4Op) (scalar : ℤ) where
  -- The scalar test of a row of the word.
  abbrev passes : ℕ → Bool
  passes row = compare (row_value column (first_row + row)) scalar op

  simd_tail-Holds :
      (left row : ℕ) (result : Word)
      → row + left ≤ 64
      → Holds passes row result
      → Holds passes (row + left) (simd_tail left column first_row op scalar row result)
  unfolding simd_tail
  simd_tail-Holds zero row result b h = let e : row + 0 ≡ row = omega arith in rw e h
  simd_tail-Holds (suc left) row result b h =
      let e : row + suc left ≡ (row + 1) + left = omega arith in
      rw e (
        simd_tail-Holds left (row + 1)
          (if passes row then bit_or result (one_at 64 row) else result) (omega arith)
          (Holds-one passes row result (omega arith) h))

  group_lanes :
      (row : ℕ)
      → lane_compare sse op (load_values sse column (first_row + row)) (sse.set1_epi32 scalar)
        ≡ passes row ∷ passes (row + 1) ∷ passes (row + 2) ∷ passes (row + 3) ∷ []
  group_lanes row =
      ap (λ left. lane_compare sse op left (sse.set1_epi32 scalar))
        (load_values-row_value sse column (first_row + row))
      ∙ lane_compare-compare sse op (row_value column (first_row + row))
          (row_value column (first_row + row + 1)) (row_value column (first_row + row + 2))
          (row_value column (first_row + row + 3)) scalar
      ∙ four refl (at (row + 1) _ (omega arith)) (at (row + 2) _ (omega arith))
          (at (row + 3) _ (omega arith))
    where
      at : (r n : ℕ) → n ≡ first_row + r → compare (row_value column n) scalar op ≡ passes r
      at r n e = ap (λ k. compare (row_value column k) scalar op) e

  simd_groups-Holds :
      (fuel nrows row : ℕ) (result : Word)
      → nrows ≤ 64
      → row ≤ nrows
      → Holds passes row result
      → let r = simd_groups sse fuel column first_row nrows op scalar row result in
        (r.1 ≤ nrows) × Holds passes r.1 r.0
  unfolding simd_groups
  simd_groups-Holds zero nrows row result n b h = (b, h)
  simd_groups-Holds (suc fuel) nrows row result n b h = elim (Bool-cases (leb (row + 4) nrows)) [
    | inl more ↦
        rw (more, group_lanes row)
          (simd_groups-Holds fuel nrows (row + 4) _ n (ground arith)
            (Holds-group passes row result h))
    | inr done ↦ rw done (b, h)
  ]

  -- Bit `i` of the result is the comparison of row `i` of the word.
  pub simd_compare-Holds :
      (nrows : ℕ)
      → nrows ≤ 64
      → (length (simd_compare sse column first_row nrows op scalar) ≡ 64)
        × ((i : ℕ)
            → i < 64
            → test_bit (simd_compare sse column first_row nrows op scalar) i
              ≡ ltb i nrows && compare (row_value column (first_row + i)) scalar op)
  unfolding simd_compare
  simd_compare-Holds nrows n =
      let r = simd_groups sse nrows column first_row nrows op scalar 0 (zeros 64) in
      let (inside, h) =
        simd_groups-Holds nrows nrows 0 (zeros 64) n (omega arith)
          (length-replicate 64 false, λ i b. get_or-replicate 64 i false ∙ ground arith) in
      let e : r.1 + (nrows - r.1) ≡ nrows = omega arith in
      rw e at (simd_tail-Holds (nrows - r.1) r.1 r.0 (omega arith) h)
