-- ===== src/Gateway.antt =====
-- gateway.mjs: the operations through which the detection reaches the account.
pub mod Dispatch
pub mod Guard
pub mod Proposals
pub mod Intake
pub mod Lockstep
pub mod Accounts
pub mod Disconnect
pub mod Signed
pub mod InUse
pub mod Writers
mod Tests
