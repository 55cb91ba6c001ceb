-- ===== src/Envelope.antt =====
-- kms-envelope-v3.mjs: the session envelope that is sealed under a data key, and what binds it to
-- the row it is stored in.
pub mod Aad
pub mod Seal
mod Tests
