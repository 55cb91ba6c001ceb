-- ===== src/Admission.antt =====
-- brain-admission.mjs: the certificate and the attestation under which a brain's channel is admitted.
pub mod Admit
mod Tests
