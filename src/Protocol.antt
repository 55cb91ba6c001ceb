-- ===== src/Protocol.antt =====
-- brain-protocol.mjs: the frames between the closed brain and the open gateway, and the canonical
-- CBOR that they are written in.
pub mod Utf8
pub mod Value
pub mod Encode
pub mod Decode
pub mod Heads
pub mod RoundTrip
pub mod Frames
pub mod Requests
pub mod Answers
pub mod Refusals
mod Tests
