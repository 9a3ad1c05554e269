-- ===== src/Encryption.antt =====
-- Changes of a store's encryption (crates/passalong-core/src/encryption).
pub mod Engine
pub mod Header
pub mod HeaderFile
pub mod Journal
pub mod Admin
pub mod Open
pub mod HeaderChange
