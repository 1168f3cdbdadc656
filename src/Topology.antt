-- ===== src/Topology.antt =====
pub mod Target
pub mod Sync
pub mod Shape
pub mod Write
pub mod Fill
pub mod Assemble
pub mod Read
pub mod Changes
pub mod Conditional
pub mod Loops
pub mod Commit
pub mod Flush
pub mod Outcome
pub mod Reach
pub mod Reached
pub mod Lookups
pub mod Downstream
pub mod Nothing
pub mod Lost
mod Example
mod Tests
pub mod Refused
pub mod Anchor
