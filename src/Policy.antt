-- ===== src/Policy.antt =====
-- policy-verify.mjs: the verifier of the signed policy chain, and the gate on every operation.
pub mod Json
pub mod Core
pub mod Action
pub mod Delta
pub mod Unchanged
pub mod Keys
pub mod Row
pub mod Quorum
pub mod Accepts
pub mod Chain
pub mod Derive
pub mod Ops
pub mod Permits
pub mod Samples
mod Tests
