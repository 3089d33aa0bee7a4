-- ===== src/Embeddings.antt =====
-- ai/embeddings/chunker.py: how the text of a note is cut into chunks for its vectors.
pub mod Chunker
pub mod Located
mod Tests
