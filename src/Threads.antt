-- ===== src/Threads.antt =====
-- The conversation threads of the assistant: ai_memory/, ai/memory/service.py and
-- ai_routes/threads.py.
pub mod Models
pub mod Repository
pub mod Service
pub mod Router
pub mod History
pub mod Stable
pub mod Messages
pub mod Memory
