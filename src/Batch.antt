-- ===== src/Batch.antt =====
-- include/pg_batch/batch.h: the batch shared by sources and nodes.
pub mod Selection
