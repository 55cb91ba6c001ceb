-- ===== src/Chokepoint.antt =====
-- tg-chokepoint.mjs: the allowlist through which every request to Telegram passes.
pub mod Frame
pub mod Check
pub mod Ceiling
pub mod Gate
pub mod Grants
mod Tests
