-- ===== src/Kernels.antt =====
-- kernels/: operations over one int4 column of a batch.
pub mod Vector
pub mod Mask
pub mod Compare
pub mod Filter
pub mod Arithmetic
pub mod Reduce
pub mod Hash
