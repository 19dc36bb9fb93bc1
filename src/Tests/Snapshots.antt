-- ===== src/Tests/Snapshots.antt =====
-- The theorems on compressed snapshots at a small batch.
use pg_batch.Prelude.{◌≡◌, refl, true, false, List, [], ◌∷◌, ◌++◌, some, arith, replicate}
use pg_batch.Prelude.Int.{pos, negsuc}
use pg_batch.Kernels.Compare.{compare, eq, gt}
use pg_batch.Kernels.Arithmetic.Cells.{cell}
use pg_batch.Compressed.{ColumnData, BatchData}
use pg_batch.Compressed.Encode.{build_column, int4_column}
use pg_batch.Compressed.Encode.RoundTrip.{input_cell, cell-int4_column}
use pg_batch.Compressed.Groups.{SourceQual, group_may_match, new_group, group_match}
use pg_batch.Compressed.Groups.Pruning.{group_of, group_may_match-keeps, row_passes}
use pg_batch.Compressed.Registry.{
  Snapshot, install_relation, acquire, absent, Installs, install_relation-Installs,
}
use pg_batch.Compressed.Registry.Counts.{Acquires, acquire-Acquires}

-- 1000, null, -7
abbrev small : ColumnData
small = record {
  values = pos 1000 ∷ pos 0 ∷ negsuc 6 ∷ [];
  nonnull_rows = true ∷ false ∷ true ∷ replicate 61 false;
}

abbrev small_batch : BatchData
small_batch = record { nrows = 3; columns = small ∷ [] }

abbrev quals : List SourceQual
quals =
    (record { prunable = true; column = 0; op = gt; scalar = some (negsuc 99) })
    ∷ (record { prunable = true; column = 0; op = eq; scalar = some (negsuc 6) })
    ∷ []

cell-int4_column_example : cell (int4_column (build_column small 3) 1) 1 ≡ input_cell small 2
cell-int4_column_example = cell-int4_column small 3 1 1 (omega arith) (omega arith)

group_may_match-keeps_example :
    group_may_match quals (group_of (new_group 1 4) ((small_batch ∷ []) ++ small_batch ∷ []))
    ≡ group_match
group_may_match-keeps_example =
    group_may_match-keeps quals 1 4 2 (small_batch ∷ []) [] small_batch refl
      (omega arith, (omega arith, tt)) (omega arith) (unfold row_passes compare in refl)

abbrev snapshots : List Snapshot
snapshots =
    (record { address = 1; relid = 10; ncolumns = 2; refcount = 0 })
    ∷ (record { address = 2; relid = 20; ncolumns = 1; refcount = 1 })
    ∷ []

abbrev renewed : Snapshot
renewed = record { address = 3; relid = 10; ncolumns = 4; refcount = 0 }

install_relation-Installs_example : Installs renewed snapshots (install_relation renewed snapshots)
install_relation-Installs_example =
    install_relation-Installs renewed snapshots (unfold absent in (refl, (refl, tt)))

acquire-Acquires_example : Acquires 20 snapshots (acquire 20 1 snapshots)
acquire-Acquires_example = acquire-Acquires 20 1 snapshots (unfold absent in (refl, (refl, tt)))
