-- ===== src/Data.antt =====
-- The package data.
pub mod Point
pub mod Points
pub mod Node
