-- ===== src/Registry.antt =====
-- backend/services/registry_service.py: the copy of the image registry's artifacts in the database.
pub mod Tables
pub mod Sync
pub mod Rounds
pub mod Mirror
pub mod Outcome
pub mod Unique
pub mod Sweep
pub mod Mapping
pub mod Queries
pub mod Scan
pub mod Report
