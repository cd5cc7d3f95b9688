-- ===== src/Auth.antt =====
-- backend/app/deps.py and backend/app/routers/auth.py.
pub mod RateLimit
pub mod Security
pub mod Service
pub mod Sessions
pub mod Guests
pub mod Households
pub mod Requests
pub mod Kept
