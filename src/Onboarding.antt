-- ===== src/Onboarding.antt =====
-- onboarding.mjs: the ceremonies that bring a Telegram account into the enclave.
pub mod Effects
pub mod Ceremony
pub mod Login
pub mod Healthy
pub mod Contexts
pub mod Steps
pub mod Attempts
pub mod Runs
mod Tests
