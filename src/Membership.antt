-- ===== src/Membership.antt =====
-- membership/: who belongs to a workspace, in which role, and who may change that.
pub mod Repository
pub mod Service
pub mod Router
pub mod Changes
pub mod Tenancy
pub mod Unique
mod Tests
