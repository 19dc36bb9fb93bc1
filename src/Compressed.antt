-- ===== src/Compressed.antt =====
-- examples/compressed_tam/: compressed snapshots of int4 tables in batches of 64 rows, and the
-- metadata of their storage groups.
pub mod Encode
pub mod Groups
pub mod Registry
use pg_batch.Prelude.{ℕ, List}
use pg_batch.Prelude.Int.{ℤ}
use pg_batch.Bits.{Word}

-- One column of a batch before it is compressed: the values (zero for a null one) and the rows that
-- are not null.
pub record ColumnData : Type 0 where
  pub values : List ℤ
  pub nonnull_rows : Word

pub record BatchData : Type 0 where
  pub nrows : ℕ
  pub columns : List ColumnData
