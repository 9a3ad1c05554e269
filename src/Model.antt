-- ===== src/Model.antt =====
-- The item model (crates/passalong-core/src/model.rs): ids, metadata, previews and file names.
pub mod Hex
pub mod Time
pub mod Id
pub mod FileName
pub mod Preview
pub mod Digest
pub mod Meta
