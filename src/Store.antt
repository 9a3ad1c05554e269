-- ===== src/Store.antt =====
-- The store: its errors and the interface that its clients use
-- (crates/passalong-core/src/store/mod.rs).
pub mod Errors
pub mod Api
pub mod Format
pub mod FsStore
