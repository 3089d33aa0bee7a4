-- ===== src/Context.antt =====
-- ai/memory/context_builder.py and ai/prompts/rag.py: the messages of one turn of the assistant.
pub mod Prompts
pub mod Builder
pub mod Budget
mod Tests
