-- ===== src/Spill.antt =====
-- spill/spill.c: rows that an operator puts aside in partitions on temporary tapes, and reads back.
-- `Bytes` is the memory of numbers, `Tape` the files that the code takes from PostgreSQL, `Block` a
-- block of rows in memory, `Partitions` the writing side and `Reader` the reading side.
pub mod Bytes
pub mod Tape
pub mod Block
pub mod Partitions
pub mod Reader
pub mod History
pub mod Shared
