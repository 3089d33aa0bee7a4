-- ===== src/Retrieval.antt =====
-- ai/retrieval/: the filter under which the vector store of the notes is searched, and the payload
-- under which a note is stored there.
pub mod Filter
pub mod Mirror
pub mod Edit
pub mod Search
pub mod Disclosure
pub mod Memory
mod Tests
