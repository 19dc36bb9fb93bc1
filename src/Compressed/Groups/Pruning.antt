-- ===== src/Compressed/Groups/Pruning.antt =====
-- examples/compressed_tam/compressed.c: a group is skipped only if none of its rows can pass.
use pg_batch.Prelude.{
  ℕ, zero, suc, ◌<◌, ◌≡◌, refl, ap, sym, ◌∙◌, Bool, true, false, not, ◌&&◌, ◌||◌, List, [], ◌∷◌,
  ◌++◌, Option, none, some, arith, length, get_or, if◌then◌else◌, foldl, foldl-append,
  length-replicate,
}
use pg_batch.Prelude.Int.{ℤ, pos}
use pg_batch.Bits.{test_bit}
use pg_batch.Kernels.Compare.{Int4Op, eq, ne, lt, le, gt, ge, compare}
use pg_batch.Kernels.Arithmetic.Exact.{eqb_eq}
use pg_batch.Compressed.{ColumnData, BatchData}
use pg_batch.Compressed.Groups.{
  GroupColumn, StorageGroup, empty_meta, known_value, update_columns, update_group, new_group,
  SourceQual, group_match, qual_match, or_next, group_may_match,
}
use pg_batch.Compressed.Groups.Metadata.{
  Covers, update_column-Covers, update_columns-keeps, length-update_columns,
}

-- A column that a batch lacks, or a group.
abbrev pub no_column : ColumnData
no_column = record { values = []; nonnull_rows = [] }

update_columns-Covers :
    (metas : List GroupColumn) (cs : List ColumnData) (nrows j row : ℕ)
    → j < length metas
    → j < length cs
    → row < nrows
    → test_bit (get_or cs j no_column).nonnull_rows row ≡ true
    → Covers
        (get_or (update_columns metas cs nrows) j empty_meta)
        (get_or (get_or cs j no_column).values row (pos 0))
unfolding update_columns
update_columns-Covers [] cs nrows j row a b h on = absurd (omega arith)
update_columns-Covers (m ∷ metas) [] nrows j row a b h on = absurd (omega arith)
update_columns-Covers (m ∷ metas) (c ∷ cs) nrows zero row a b h on =
    update_column-Covers c nrows 0 row row m h (omega arith) on
update_columns-Covers (m ∷ metas) (c ∷ cs) nrows (suc j) row a b h on =
    update_columns-Covers metas cs nrows j row (omega arith) (omega arith) h on

-- A group after a list of batches.
abbrev pub group_of : StorageGroup → List BatchData → StorageGroup
group_of g bs = foldl update_group g bs

group_of-keeps :
    (bs : List BatchData) (g : StorageGroup) (j : ℕ) (v : ℤ)
    → Covers (get_or g.columns j empty_meta) v
    → Covers (get_or (group_of g bs).columns j empty_meta) v
unfolding update_group foldl
group_of-keeps [] g j v k = k
group_of-keeps (b ∷ bs) g j v k =
    group_of-keeps bs (update_group g b) j v
      (update_columns-keeps g.columns b.columns b.nrows j v k)

length-group_of :
    (bs : List BatchData) (g : StorageGroup) → length (group_of g bs).columns ≡ length g.columns
unfolding update_group foldl
length-group_of [] g = refl
length-group_of (b ∷ bs) g =
    length-group_of bs (update_group g b) ∙ length-update_columns g.columns b.columns b.nrows

group_of-Covers :
    (before after : List BatchData) (b : BatchData) (g : StorageGroup) (j row : ℕ)
    → j < length g.columns
    → j < length b.columns
    → row < b.nrows
    → test_bit (get_or b.columns j no_column).nonnull_rows row ≡ true
    → Covers
        (get_or (group_of g (before ++ b ∷ after)).columns j empty_meta)
        (get_or (get_or b.columns j no_column).values row (pos 0))
unfolding update_group foldl
group_of-Covers before after b g j row a c h on =
    rw (foldl-append update_group g before (b ∷ after)) (
      group_of-keeps after (update_group (group_of g before) b) j _ (
        update_columns-Covers (group_of g before).columns b.columns b.nrows j row
          (omega (arith, length-group_of before g)) c h on))

qual_match-Covers :
    (meta : GroupColumn) (op : Int4Op) (v scalar : ℤ)
    → Covers meta v
    → compare v scalar op ≡ true
    → qual_match meta op (some scalar) ≡ group_match
unfolding qual_match compare
qual_match-Covers meta eq v scalar c h =
    let s : v ≡ scalar = eqb_eq v scalar h in
    let m : meta.distinct_overflow || known_value scalar meta.distinct ≡ true =
      ap (λ d. meta.distinct_overflow || known_value d meta.distinct) (sym s) ∙ c.member in
    ground (arith, m, c.ranged.nonnull, c.ranged.above, c.ranged.below, h)
qual_match-Covers meta ne v scalar c h =
    ground (arith, c.ranged.nonnull, c.ranged.above, c.ranged.below, h)
qual_match-Covers meta lt v scalar c h =
    ground (arith, c.ranged.nonnull, c.ranged.above, c.ranged.below, h)
qual_match-Covers meta le v scalar c h =
    ground (arith, c.ranged.nonnull, c.ranged.above, c.ranged.below, h)
qual_match-Covers meta gt v scalar c h =
    ground (arith, c.ranged.nonnull, c.ranged.above, c.ranged.below, h)
qual_match-Covers meta ge v scalar c h =
    ground (arith, c.ranged.nonnull, c.ranged.above, c.ranged.below, h)

-- SQL's test of a row by the quals that are prunable: a null passes none of them.
abbrev pub qual_passes : BatchData → ℕ → SourceQual → Bool
qual_passes b row q = if not q.prunable then true else elim q.scalar [
  | none ↦ false
  | some scalar ↦
      test_bit (get_or b.columns q.column no_column).nonnull_rows row
      && compare (get_or (get_or b.columns q.column no_column).values row (pos 0)) scalar q.op
]

unfoldable pub row_passes : List SourceQual → BatchData → ℕ → Bool
row_passes [] b row = true
row_passes (q ∷ qs) b row = qual_passes b row q && row_passes qs b row

-- Every qual names a column of the relation.
abbrev pub AllColumns : ℕ → List SourceQual → Type 0
AllColumns ncolumns [] = Unit
AllColumns ncolumns (q ∷ qs) = (q.column < ncolumns) × AllColumns ncolumns qs

group_may_match-passes :
    (qs : List SourceQual) (g : StorageGroup) (b : BatchData) (row ncolumns : ℕ)
    → AllColumns ncolumns qs
    → ((j : ℕ)
        → j < ncolumns
        → test_bit (get_or b.columns j no_column).nonnull_rows row ≡ true
        → Covers
            (get_or g.columns j empty_meta)
            (get_or (get_or b.columns j no_column).values row (pos 0)))
    → row_passes qs b row ≡ true
    → group_may_match qs g ≡ group_match
unfolding group_may_match row_passes
group_may_match-passes [] g b row ncolumns k c h = refl
group_may_match-passes (q ∷ qs) g b row ncolumns k c h =
    let rest = group_may_match-passes qs g b row ncolumns k.1 c (ground (arith, h)) in
    let here : qual_passes b row q ≡ true = ground (arith, h) in
    one_qual q.prunable q.scalar rest here
  where
    one_qual :
        (prunable : Bool) (scalar : Option ℤ)
        → group_may_match qs g ≡ group_match
        → (if not prunable then true else elim scalar [
          | none ↦ false
          | some v ↦
              test_bit (get_or b.columns q.column no_column).nonnull_rows row
              && compare (get_or (get_or b.columns q.column no_column).values row (pos 0)) v q.op
        ])
          ≡ true
        → (if not prunable
            then group_may_match qs g
            else or_next
                (qual_match (get_or g.columns q.column empty_meta) q.op scalar)
                (group_may_match qs g))
          ≡ group_match
    one_qual false scalar rest here = rest
    one_qual true none rest here = absurd (ground (arith, here))
    one_qual true (some v) rest here =
        rw
          (qual_match-Covers (get_or g.columns q.column empty_meta) q.op
            (get_or (get_or b.columns q.column no_column).values row (pos 0)) v
            (c q.column k.0 (ground (arith, here))) (ground (arith, here)))
          rest

-- A group that holds a batch with a row that passes all prunable quals is not skipped, whatever other
-- batches were added to it before and after. The batch has the columns of the relation, and the quals
-- name such columns.
pub group_may_match-keeps :
    (qs : List SourceQual) (ncolumns first_batch row : ℕ) (before after : List BatchData)
    (b : BatchData)
    → length b.columns ≡ ncolumns
    → AllColumns ncolumns qs
    → row < b.nrows
    → row_passes qs b row ≡ true
    → group_may_match qs (group_of (new_group ncolumns first_batch) (before ++ b ∷ after))
      ≡ group_match
group_may_match-keeps qs ncolumns first_batch row before after b same named h passes =
    group_may_match-passes qs (group_of (new_group ncolumns first_batch) (before ++ b ∷ after)) b
      row ncolumns named
      (λ j k on.
        group_of-Covers before after b (new_group ncolumns first_batch) j row
          (unfold new_group in rw (length-replicate ncolumns empty_meta) k) (omega arith) h on)
      passes
