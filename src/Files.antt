-- ===== src/Files.antt =====
-- files/repository.py and files/permissions.py: the files of a workspace and their links to notes.
pub mod Validation
pub mod Permissions
pub mod Repository
pub mod Listing
pub mod Links
mod Tests
