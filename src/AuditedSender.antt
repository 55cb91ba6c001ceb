-- ===== src/AuditedSender.antt =====
-- audited-sender.mjs: the two seams through which every request of the MTProto sender passes, over
-- the queue of the client library, which is a parameter.
pub mod Seams
pub mod Wire
mod Tests
