-- ===== src/Snapshot.antt =====
-- internal/applicationsnapshot: the snapshot that is read, and the report on its components.
pub mod Input
pub mod Report
