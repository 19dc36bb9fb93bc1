-- ===== src/Runtime.antt =====
-- runtime/: what executor nodes of one child share.
pub mod Unary
pub mod Request
