-- ===== src/Vsa.antt =====
-- internal/validate/vsa: verification summary attestations, as they are found in the transparency
-- log, fetched from it and stored.
pub mod Rekor
pub mod Pool
pub mod Storage
pub mod Service
pub mod Backends
