-- ===== src/Brain.antt =====
-- brain.mjs: the detection, which decides which operations to propose and when.
pub mod Plan
pub mod Planned
pub mod Trusted
pub mod Sets
pub mod Localities
pub mod Sweep
pub mod Removals
pub mod Security
pub mod Events
mod Tests
