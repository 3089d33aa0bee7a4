-- ===== src/RateLimit.antt =====
-- core/security/rate_limit.py: the fixed-window limiter in front of the API and of /auth.
pub mod Limiter
pub mod Window
mod Tests
