-- ===== src/StateAuthority.antt =====
-- state-authority.mjs: the State Authority, which anchors the policy head and the gateway's
-- single-writer lease, and the gateway's client of it.
pub mod Store
pub mod Dynamo
pub mod Mirror
pub mod Client
pub mod Deadline
pub mod Validity
pub mod History
pub mod Fencing
mod Tests
