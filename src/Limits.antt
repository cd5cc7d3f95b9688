-- ===== src/Limits.antt =====
-- backend/app/limits.py: what a household may grow to, and what a server may hold.
pub mod Tiers
pub mod Settings
pub mod Counting
pub mod Enforce
pub mod Published
pub mod Startup
pub mod Instance
pub mod Ingest
pub mod Quota
