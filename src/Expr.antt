-- ===== src/Expr.antt =====
-- expr/: the restricted int4 expressions, compiled to a column and a chain of arithmetic steps.
pub mod Nodes
pub mod Compile
pub mod Vector
pub mod Sql
pub mod Filter
