-- ===== src/Compressed/Groups/Metadata.antt =====
-- examples/compressed_tam/compressed.c: update_group keeps the metadata true of every value added.
use pg_batch.Prelude.{
  ℕ, zero, suc, ◌+◌, ◌<◌, ◌≡◌, refl, ap, sym, inl, inr, Bool, true, false, not, ◌&&◌, ◌||◌, List,
  [], ◌∷◌, ◌++◌, arith, length, get_or, ltb, if◌then◌else◌, Bool-cases,
}
use pg_batch.Prelude.Int.{ℤ, pos, ◌≤ℤ◌}
use pg_batch.Bits.{test_bit}
use pg_batch.Kernels.Compare.{eqb_ℤ}
use pg_batch.Kernels.Arithmetic.Exact.{eqb_eq}
use pg_batch.Compressed.{ColumnData}
use pg_batch.Compressed.Groups.{
  GroupColumn, empty_meta, distinct_values, least_ℤ, greatest_ℤ, known_value, add_range,
  add_distinct, add_value, update_column, update_columns,
}

-- The range holds a value, and so do the distinct values while they are exact.
pub record Ranged (meta : GroupColumn) (v : ℤ) : Type 0 where
  pub nonnull : meta.has_nonnull ≡ true
  pub above : meta.minimum ≤ℤ v
  pub below : v ≤ℤ meta.maximum

pub record Covers (meta : GroupColumn) (v : ℤ) : Type 0 where
  pub ranged : Ranged meta v
  pub member : meta.distinct_overflow || known_value v meta.distinct ≡ true

-- A property of either branch.
branches :
    {A : Type 0} (P : A → Type 0) (b : Bool) (x y : A)
    → (b ≡ true → P x)
    → (b ≡ false → P y)
    → P (if b then x else y)
branches P true x y f g = f refl
branches P false x y f g = g refl

known_value-append :
    (v w : ℤ) (ds : List ℤ) → known_value v (ds ++ w ∷ []) ≡ known_value v ds || eqb_ℤ w v
unfolding known_value
known_value-append v w [] = ground arith
known_value-append v w (d ∷ ds) = ground (arith, known_value-append v w ds)

Covers-add_distinct :
    (meta : GroupColumn) (v w : ℤ)
    → Ranged meta v
    → (eqb_ℤ w v || (meta.distinct_overflow || known_value v meta.distinct)) ≡ true
    → Covers (add_distinct meta w) v
Covers-add_distinct meta v w c m =
    let a = known_value-append v w meta.distinct in
    branches (λ x. Covers x v) _ _ _ (λ o. record { ranged = c; member = ground (arith, o) })
      (λ o.
        branches (λ x. Covers x v)
          (not (known_value w meta.distinct) && ltb (length meta.distinct) distinct_values)
          (record meta { distinct = meta.distinct ++ w ∷ [] }) _
          (λ k. record {
            ranged = record { nonnull = c.nonnull; above = c.above; below = c.below };
            member = ground (arith, a, m, o);
          })
          (λ k.
            branches (λ x. Covers x v) (not (known_value w meta.distinct))
              (record meta { distinct_overflow = true }) meta
              (λ n. record {
                ranged = record { nonnull = c.nonnull; above = c.above; below = c.below };
                member = refl;
              })
              (λ n. record { ranged = c; member = same_value n o })))
  where
    same_value :
        not (known_value w meta.distinct) ≡ false
        → meta.distinct_overflow ≡ false
        → meta.distinct_overflow || known_value v meta.distinct ≡ true
    same_value n o = elim (Bool-cases (eqb_ℤ w v)) [
      | inl e ↦
          let s : w ≡ v = eqb_eq w v e in
          let k : known_value w meta.distinct ≡ true = ground (arith, n) in rw (o, sym s) k
      | inr d ↦ ground (arith, m, d)
    ]

Ranged-add_range : (meta : GroupColumn) (v w : ℤ) → Ranged meta v → Ranged (add_range meta w) v
Ranged-add_range meta v w c =
    branches (λ x. Ranged x v) (not meta.has_nonnull) _ _
      (λ n. absurd (ground (arith, n, c.nonnull)))
      (λ n. record {
        nonnull = c.nonnull;
        above = ground (arith, c.above);
        below = ground (arith, c.below);
      })

Ranged-new : (meta : GroupColumn) (v : ℤ) → Ranged (add_range meta v) v
Ranged-new meta v =
    branches (λ x. Ranged x v) (not meta.has_nonnull) _ _
      (λ n. record { nonnull = refl; above = omega arith; below = omega arith })
      (λ n. record { nonnull = ground (arith, n); above = ground arith; below = ground arith })

add_range-distinct :
    (meta : GroupColumn) (v w : ℤ)
    → (add_range meta w).distinct_overflow || known_value v (add_range meta w).distinct
      ≡ meta.distinct_overflow || known_value v meta.distinct
add_range-distinct meta v w = by_flag meta.has_nonnull
  where
    by_flag :
        (b : Bool)
        → (if not b
              then record meta { has_nonnull = true; minimum = w; maximum = w }
              else record meta {
                minimum = least_ℤ meta.minimum w;
                maximum = greatest_ℤ meta.maximum w;
              }).distinct_overflow
            || known_value v
                (if not b
                  then record meta { has_nonnull = true; minimum = w; maximum = w }
                  else record meta {
                    minimum = least_ℤ meta.minimum w;
                    maximum = greatest_ℤ meta.maximum w;
                  }).distinct
          ≡ meta.distinct_overflow || known_value v meta.distinct
    by_flag true = refl
    by_flag false = refl

-- A value stays covered, and the one that is added becomes so.
Covers-add_value : (meta : GroupColumn) (v w : ℤ) → Covers meta v → Covers (add_value meta w) v
unfolding add_value
Covers-add_value meta v w c =
    let d = add_range-distinct meta v w in
    Covers-add_distinct (add_range meta w) v w (Ranged-add_range meta v w c.ranged)
      (ground (arith, d, c.member))

Covers-new : (meta : GroupColumn) (v : ℤ) → Covers (add_value meta v) v
unfolding add_value
Covers-new meta v =
    let e : eqb_ℤ v v ≡ true = ground arith in
    Covers-add_distinct (add_range meta v) v v (Ranged-new meta v) (rw e)

module _ (c : ColumnData) where
  update_column-keeps :
      (n row : ℕ) (meta : GroupColumn) (v : ℤ)
      → Covers meta v
      → Covers (update_column meta c row n) v
  unfolding update_column
  update_column-keeps zero row meta v k = k
  update_column-keeps (suc n) row meta v k = update_column-keeps n (row + 1) _ v (
      branches (λ x. Covers x v) (test_bit c.nonnull_rows row)
        (add_value meta (get_or c.values row (pos 0))) meta
        (λ on. Covers-add_value meta v (get_or c.values row (pos 0)) k) (λ off. k))

  pub update_column-Covers :
      (n row i k : ℕ) (meta : GroupColumn)
      → i < n
      → k ≡ row + i
      → test_bit c.nonnull_rows k ≡ true
      → Covers (update_column meta c row n) (get_or c.values k (pos 0))
  unfolding update_column
  update_column-Covers zero row i k meta h e on = absurd (omega arith)
  update_column-Covers (suc n) row zero k meta h e on =
      let f : row ≡ k = omega arith in
      rw (f, on)
        (update_column-keeps n (k + 1) _ (get_or c.values k (pos 0))
          (Covers-new meta (get_or c.values k (pos 0))))
  update_column-Covers (suc n) row (suc i) k meta h e on =
      update_column-Covers n (row + 1) i k _ (omega arith) (omega arith) on

pub update_columns-keeps :
    (metas : List GroupColumn) (cs : List ColumnData) (nrows j : ℕ) (v : ℤ)
    → Covers (get_or metas j empty_meta) v
    → Covers (get_or (update_columns metas cs nrows) j empty_meta) v
unfolding update_columns
update_columns-keeps [] [] nrows j v k = k
update_columns-keeps [] (c ∷ cs) nrows j v k = k
update_columns-keeps (m ∷ metas) [] nrows j v k = k
update_columns-keeps (m ∷ metas) (c ∷ cs) nrows zero v k = update_column-keeps c nrows 0 m v k
update_columns-keeps (m ∷ metas) (c ∷ cs) nrows (suc j) v k =
    update_columns-keeps metas cs nrows j v k

pub length-update_columns :
    (metas : List GroupColumn) (cs : List ColumnData) (nrows : ℕ)
    → length (update_columns metas cs nrows) ≡ length metas
unfolding update_columns
length-update_columns [] [] nrows = refl
length-update_columns [] (c ∷ cs) nrows = refl
length-update_columns (m ∷ metas) [] nrows = refl
length-update_columns (m ∷ metas) (c ∷ cs) nrows = ap suc (length-update_columns metas cs nrows)
