-- ===== src/Tokens.antt =====
-- core/redis/redis.py: the keys and the methods of the token store, and what they guarantee.
pub mod Keys
pub mod Store
pub mod Refresh
pub mod Revoke
pub mod Reset
pub mod Trace
pub mod Sessions
pub mod Represents
pub mod Steps
pub mod Refinement
