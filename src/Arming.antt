-- ===== src/Arming.antt =====
-- arm.mjs: the account gets the policy of its owner.
pub mod Genesis
pub mod Complete
pub mod Loaded
pub mod Warranted
pub mod Sweep
mod Tests
