-- ===== src/Operations.antt =====
-- services/api/operations.py: what the API accepts as a job, and the commands that a job becomes.
pub mod Request
pub mod Artifacts
pub mod Secrets
pub mod Validate
pub mod Prepared
