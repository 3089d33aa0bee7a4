-- ===== src/Inbound.antt =====
-- Notes that arrive by email and WhatsApp: integrations/, and the checks of a file in
-- core/storage/utils.py.
pub mod Models
pub mod Identity
pub mod Attachments
pub mod Ingest
pub mod Links
pub mod Router
pub mod Stored
pub mod Once
pub mod Requests
pub mod Held
pub mod Phones
pub mod Confirm
mod Tests
