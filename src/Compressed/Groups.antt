-- ===== src/Compressed/Groups.antt =====
-- examples/compressed_tam/compressed.c: storage groups, the metadata of their columns, and the test
-- that skips a group. `ndistinct` is the length of `distinct`.
pub mod Metadata
pub mod Pruning
use pg_batch.Prelude.{
  ℕ, zero, suc, ◌+◌, ◌-◌, Bool, true, false, not, ◌&&◌, ◌||◌, List, [], ◌∷◌, ◌++◌, Option, none,
  some, length, get_or, replicate, ltb, if◌then◌else◌,
}
use pg_batch.Prelude.Int.{ℤ, pos, ltb_ℤ}
use pg_batch.Bits.{Word, test_bit}
use pg_batch.Kernels.Compare.{Int4Op, eq, ne, lt, le, gt, ge, eqb_ℤ, leb_ℤ}
use pg_batch.Compressed.{ColumnData, BatchData}

pub record GroupColumn : Type 0 where
  pub has_nonnull : Bool
  pub distinct_overflow : Bool
  pub minimum : ℤ
  pub maximum : ℤ
  pub distinct : List ℤ

pub record StorageGroup : Type 0 where
  pub first_batch : ℕ
  pub nbatches : ℕ
  pub columns : List GroupColumn

-- palloc0
abbrev pub empty_meta : GroupColumn
empty_meta = record {
  has_nonnull = false;
  distinct_overflow = false;
  minimum = pos 0;
  maximum = pos 0;
  distinct = [];
}

-- Min and Max
abbrev pub least_ℤ : ℤ → ℤ → ℤ
least_ℤ a b = if ltb_ℤ a b then a else b

abbrev pub greatest_ℤ : ℤ → ℤ → ℤ
greatest_ℤ a b = if ltb_ℤ b a then a else b

-- The loop over `distinct`.
pub known_value : ℤ → List ℤ → Bool
known_value value [] = false
known_value value (d ∷ rest) = eqb_ℤ d value || known_value value rest

abbrev pub add_range : GroupColumn → ℤ → GroupColumn
add_range meta value =
    if not meta.has_nonnull
    then record meta { has_nonnull = true; minimum = value; maximum = value }
    else record meta {
      minimum = least_ℤ meta.minimum value;
      maximum = greatest_ℤ meta.maximum value;
    }

-- PG_BATCH_DISTINCT_VALUES
abbrev pub distinct_values : ℕ
distinct_values = 16

abbrev pub add_distinct : GroupColumn → ℤ → GroupColumn
add_distinct meta value =
    let known = known_value value meta.distinct in
    if meta.distinct_overflow
    then meta
    else if not known && ltb (length meta.distinct) distinct_values
    then record meta { distinct = meta.distinct ++ value ∷ [] }
    else if not known
    then record meta { distinct_overflow = true }
    else meta

-- The body of update_group for one value that is not null.
pub add_value : GroupColumn → ℤ → GroupColumn
add_value meta value = add_distinct (add_range meta value) value

-- The loop over the rows of a column: `n` rows from `row` on.
pub update_column : GroupColumn → ColumnData → ℕ → ℕ → GroupColumn
update_column meta c row zero = meta
update_column meta c row (suc n) =
    update_column
      (if test_bit c.nonnull_rows row then add_value meta (get_or c.values row (pos 0)) else meta) c
      (row + 1) n

pub update_columns : List GroupColumn → List ColumnData → ℕ → List GroupColumn
update_columns (m ∷ metas) (c ∷ cs) nrows =
    update_column m c 0 nrows ∷ update_columns metas cs nrows
update_columns metas [] nrows = metas
update_columns [] cs nrows = []

pub update_group : StorageGroup → BatchData → StorageGroup
update_group g b = record g {
  nbatches = g.nbatches + 1;
  columns = update_columns g.columns b.columns b.nrows;
}

-- append_group
pub new_group : ℕ → ℕ → StorageGroup
new_group ncolumns first_batch = record {
  first_batch = first_batch;
  nbatches = 0;
  columns = replicate ncolumns empty_meta;
}

-- SourceQual, as far as a group is tested: a null scalar is `none`.
pub record SourceQual : Type 0 where
  pub prunable : Bool
  pub column : ℕ
  pub op : Int4Op
  pub scalar : Option ℤ

pub data GroupMatch : Type 0 where
  group_match skip_minmax skip_membership : GroupMatch

-- The `switch`.
abbrev pub range_matches : GroupColumn → ℤ → Int4Op → Bool
range_matches meta scalar eq = leb_ℤ meta.minimum scalar && leb_ℤ scalar meta.maximum
range_matches meta scalar ne = not (eqb_ℤ meta.minimum scalar) || not (eqb_ℤ meta.maximum scalar)
range_matches meta scalar lt = ltb_ℤ meta.minimum scalar
range_matches meta scalar le = leb_ℤ meta.minimum scalar
range_matches meta scalar gt = ltb_ℤ scalar meta.maximum
range_matches meta scalar ge = leb_ℤ scalar meta.maximum

abbrev pub is_eq : Int4Op → Bool
is_eq eq = true
is_eq _ = false

-- The test of one qual that is prunable.
pub qual_match : GroupColumn → Int4Op → Option ℤ → GroupMatch
qual_match meta op none = skip_minmax
qual_match meta op (some scalar) =
    if not meta.has_nonnull
    then skip_minmax
    else if not (range_matches meta scalar op)
    then skip_minmax
    else if is_eq op && not meta.distinct_overflow && not (known_value scalar meta.distinct)
    then skip_membership
    else group_match

abbrev pub or_next : GroupMatch → GroupMatch → GroupMatch
or_next group_match next = next
or_next skip next = skip

pub group_may_match : List SourceQual → StorageGroup → GroupMatch
unfolding qual_match
group_may_match [] g = group_match
group_may_match (q ∷ qs) g =
    let rest = group_may_match qs g in
    if not q.prunable
    then rest
    else or_next (qual_match (get_or g.columns q.column empty_meta) q.op q.scalar) rest
