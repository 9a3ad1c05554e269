-- ===== src/Crypto.antt =====
-- Client-side encryption (crates/passalong-core/src/crypto): the format of sealed
-- content, keys and passphrases.
pub mod Aead
pub mod Stream
pub mod Keys
pub mod Words
