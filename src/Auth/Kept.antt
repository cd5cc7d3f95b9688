-- ===== src/Auth/Kept.antt =====
-- The lead of a household under the requests of backend/app/routers/auth.py.
pub mod Writes
pub mod Handlers
pub mod Moves
pub mod Changes
pub mod Served
