-- ===== src/Lib.antt =====
-- Verification of pg_batch, an extension of PostgreSQL that executes plans on batches of rows.
--
-- A batch is a selection of active rows and a set of columns. A source publishes a batch, kernels
-- filter, compute and reduce its int4 columns, expressions compile SQL nodes to chains of kernels, and
-- executor nodes pass batches on. The modelled parts, with the files of the repository:
--
--   Prelude, Bits    shared: Boolean tests, lists over native numbers, signed integers, results with
--                    an error; words of bits, and the loops that visit the ones of a word.
--   Postgres         what the code takes from PostgreSQL, as records of functions with their documented
--                    behaviour: pg_bitutils (rightmost one, popcount), common/int.h (checked sums).
--   Batch/Selection  include/pg_batch/batch.h: PgBatchSelection; `contains`, `clear`, `intersect`,
--                    `count` and `next` are the functions pg_batch_selection_*. A word is the list of
--                    its 64 bits, the lowest first; `nwords` is the length of the list of words.
--   Kernels          include/pg_batch/vector.h (Vector: a column in datum or packed layout);
--                    kernels/int4.c, kernels/internal.h and kernels/int4_simd.c: Compare
--                    (pg_batch_int4_compare_op), Filter (pg_batch_filter_int4), Arithmetic
--                    (int4_arithmetic, pg_batch_int4_arithmetic_scalar), Reduce (pg_batch_reduce_int4);
--                    kernels/int4_hash.c: Hash (pg_batch_hash_int4).
--                    The SSE2 intrinsics are the record Sse2.
--   Expr             expr/expr.c: Nodes (analyze_value, analyze_filter), Compile (compile_value and
--                    pg_batch_expr_compile_*), Vector (pg_batch_expr_get_int4 with its two buffers),
--                    Filter (pg_batch_expr_apply_filter); Sql is the meaning of a node at one row.
--   Limit            examples/limit_node/executor.c: compute_limits and trim_batch; Stream adds the
--                    loop of runtime/unary.c (fetch_batch, exec_batch).
--   Runtime/Unary    runtime/unary.c: fetch_batch, exec_batch and exec_row over any processing of a
--                    batch; Fetch, Steps, Drained and Batches prove what a client gets.
--   Runtime/Request  runtime/unary.c: forward_request, on bindings of Bridge.
--   Compressed       examples/compressed_tam/compressed.c: Encode (choose_compression, write_column,
--                    column_values), Groups (update_group, group_may_match), Registry
--                    (install_compressed_relation, pg_batch_compressed_acquire and _release).
--   Bridge           bridge/bridge.c: one binding and the batches in a store; `Step` is one call of
--                    the bridge or the source at work, and `Steps` a run.
--   Spill            spill/spill.c: Bytes (memory as bytes), Tape (utils/logtape.h as a parameter),
--                    Block (SpillWriter and its bytes), Partitions (get_writer and the eviction;
--                    Write: pg_batch_spill_write, _write_dense, _finish), Reader
--                    (pg_batch_spill_reader_*), History (a set over its whole life), Shared
--                    (pg_batch_shared_spill_*: the writer of a participant; AsSet and Local compare it
--                    with a set of its own; Files: its end and the reader over all participants).
--   Tests            concrete instances of the parameters, sample data, and the theorems at them.
--
-- Integers. An int32 is an integer ℤ, and a sum that may overflow goes through common/int.h. The row
-- number of a packed column is reduced to an int as in the code; the evaluation over a batch assumes at
-- most 2^31 rows. The sum of a reduction is an int64 in C and unbounded here: 2^31 values of 32 bits
-- cannot overflow it.
--
-- Memory. A column is borrowed and read-only, so it is a value. The two buffers of an expression are
-- values that the loop swaps; they never alias, since a scalar expression is compiled to no step. A
-- read outside an array gives a default.
--
-- Loops. A loop over the words or rows of a batch is recursion on their list or number. The loops over
-- the ones of a word run on fuel, the width of the word, since each round removes a one. The scan of
-- `next` runs for the number of words, each round passing one, and trim_batch for the number of rows,
-- each round passing a row. The search for a block to evict runs for the
-- number of partitions. A read of shared spill files passes a participant in every round but the first,
-- and a call of exec_row needs two rounds at most; both have fuel for that, and the theorems on them
-- show that it does not run out. The loop of SIMD groups of four rows runs for the number of rows.
--
-- Parameters. ExecEvalExpr is a function of the node; the hypothesis EvaluatesScalars says that on an
-- expression without a Var it gives SQL's value. The callback that resolves a Var to a column is a
-- function. Both appear as arguments.
--
-- Not modelled: the registries and the slot table of the bridge, the projections, the
-- executor nodes under nodes/ with the hash join, the layout and the set-up of the shared memory of
-- spill files, the input and output side of the runtime, planning, the Arrow foreign data wrapper (its
-- library is not in the repository), and the registration code of the modules.
pub mod Prelude
pub mod Bits
pub mod Postgres
pub mod Batch
pub mod Kernels
mod Tests
pub mod Expr
pub mod Limit
pub mod Compressed
pub mod Bridge
pub mod Spill
pub mod Runtime
