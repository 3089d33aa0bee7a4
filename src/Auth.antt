-- ===== src/Auth.antt =====
-- auth/ and core/security/dependency.py: accounts, tokens, and the context of a request.
pub mod Models
pub mod Platform
pub mod Security
pub mod Context
pub mod Service
pub mod Router
pub mod Issue
pub mod Sessions
pub mod Passwords
pub mod Memory
mod Tests
