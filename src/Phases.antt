-- ===== src/Phases.antt =====
-- The phases of a schema migration and of a redaction as the status of a replica stores them:
-- src/types/replica.rs.
pub mod Migration
pub mod Redaction
