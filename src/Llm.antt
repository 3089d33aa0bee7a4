-- ===== src/Llm.antt =====
-- shared/llm/: calling a hosted model, with retries and with a walk over the configured models.
pub mod Provider
pub mod Retry
pub mod Candidates
pub mod Fallback
pub mod Walk
pub mod Cache
pub mod Order
mod Tests
