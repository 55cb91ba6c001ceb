-- ===== src/Protocol/RoundTrip.antt =====
-- Decoding what `encode` has written.
pub mod Fits
pub mod Bodies
pub mod Items
pub mod Objects
pub mod Encoded
