-- ===== src/Rag.antt =====
-- ai/services/rag_service.py: answers to questions from the notes and files of a workspace.
pub mod Service
pub mod Stream
pub mod Grounding
pub mod Transcript
pub mod Calls
pub mod Deleted
mod Tests
