-- ===== src/Scan.antt =====
-- src/kvtsjl/store/schema/scan.py: scan specifications, the predicate language, what is pushed to
-- a leaf, and the cascade that filters the rest on the client.
pub mod Row
pub mod Predicate
pub mod Pushdown
pub mod Cascade
pub mod Compile
mod Tests
