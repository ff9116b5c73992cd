-- ===== src/Float.antt =====
-- Python's float: the operations that the code uses, their laws, and a type that meets them.
pub mod Interface
pub mod Ranking
pub mod Fixed
