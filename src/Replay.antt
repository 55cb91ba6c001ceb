-- ===== src/Replay.antt =====
-- replay-detect.mjs: the detector of replayed sessions by their impossible movement.
pub mod Locality
pub mod Geo
pub mod Observe
pub mod Judge
pub mod Classify
pub mod Frame
pub mod Home
pub mod Row
pub mod Roster
pub mod Detect
pub mod Quiet
pub mod Loop
pub mod Polls
pub mod Evidence
mod Tests
