-- ===== src/Notes.antt =====
-- notes/: the notes of a workspace, with the cache of core/redis/cache.py in front of the reads.
pub mod Models
pub mod Permissions
pub mod Repository
pub mod Cache
pub mod Router
pub mod Service
pub mod Stale
pub mod Visibility
pub mod Fresh
pub mod Authority
pub mod Json
mod Tests
