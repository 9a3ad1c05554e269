-- ===== src/Lib.antt =====
-- Verification of passalong, which shares text and files between devices through a store that is a
-- plain folder, a folder over SFTP or a server.
--
-- The parts, and the files that model them (paths from the repository's root):
-- - crates/passalong-core/src/model.rs: ids, file names, previews, digests and metadata. Model.antt
--   and its children: Id (`ItemId`, `ContentKey`), FileName (`sanitise_file_name`), Preview
--   (`preview_of`), Digest (`ContentHasher`, `ContentDigest`), Meta (`ItemMeta`, `NewItem`), Hex and
--   Time.
-- - crates/passalong-core/src/retention.rs: what `prune` deletes. Retention.antt (`select`) and
--   Retention/Age.antt (`parse_age`).
-- - crates/passalong-core/src/crypto/stream.rs: sealed content, written by `copy` of
--   crates/passalong-core/src/store/format.rs. Crypto/Stream.antt, over the cipher of Crypto/Aead.antt.
-- - crates/passalong-core/src/fs/mod.rs: paths and the contract of a backend. Fs.antt (`RemotePath`),
--   Fs/Disk.antt (what each operation of `RemoteFs` does to a disk) and Fs/Io.antt (the operations with
--   the faults that the backend may have); Fs/Lookup, Fs/Holds and Fs/Keeps carry the proofs.
-- - crates/passalong-core/src/store/fs_store.rs: the store on a backend. Store/FsStore.antt (the
--   readers), Store/FsStore/Writes.antt (`put` and the guards) and Store/FsStore/Changes.antt (`delete`
--   and `import`), over the format of Store/Format.antt and the errors of Store/Errors.antt.
-- - crates/passalong-core/src/serve: what `serve` does on its own. Serve/Backoff.antt (`Backoff`),
--   Serve/ClipboardWatcher.antt, Serve/DropTracker.antt, Serve/Upload.antt (`Uploader`) and
--   Serve/Pull.antt (`Puller`).
-- - crates/passalong-core/src/cache.rs: the list cache. Cache.antt (`ListCache`), which reads a store
--   through Store/Api.antt, as Serve/Pull does.
-- - crates/passalong-core/src/crypto: keys, words and sealed metadata. Crypto/Keys.antt (`wrap`,
--   `unwrap`, `KeyId`, `KdfParams` and `Sealer`) and Crypto/Words.antt (`Words`).
-- - crates/passalong-core/src/encryption: changes of a store's encryption. Encryption/Header.antt and
--   Encryption/HeaderFile.antt (`StoreHeader` and its file), Encryption/Journal.antt and its child
--   Release (the lock), Encryption/HeaderChange.antt (`run_change`, `finish_change` and `revert`),
--   Encryption/Admin.antt (`classify` and the moves of items), Encryption/Open.antt (`opening`) and
--   Encryption/Engine.antt (`run_rewrite` over any implementation of `Rewrite`). The lock, the headers
--   and the moves are on the operations of Fs/Io.
-- - crates/passalong-cli/src/commands/choose/state.rs: the picker of `passalong choose`.
--   Cli/Picker.antt.
-- A store calls its backend through Fs/Io, its format through Store/Format, and makes ids and
-- metadata with Model; `prune` and the listings share the order of Retention.
--
-- State is passed explicitly: an operation on the disk is a function of a world, which holds the
-- disk, the faults to come and the random numbers to come, into a result and a world. Any operation of
-- the backend may fail by itself, and a failed write may have written some of its bytes. Other clients
-- do not change the disk during an operation here.
--
-- Texts are lists of code points, bytes are numbers. Numbers are natural; where the source's integers
-- wrap or are checked, the limit is written out. The loops over content in Crypto/Stream run on fuel,
-- one for each record: more fuel than the content has bytes is enough, and the theorems say so.
--
-- Parameters stand for the crates that the program uses (chrono, sha2, hex, aes-gcm, hkdf,
-- mime_guess, serde, argon2, hmac), with what is relied on as laws. Not modelled: logging, the JSON
-- texts, the desktop's clipboard, the SSH and HTTPS backends, configuration, the rest of the command
-- line, and the re-encryption of a folder (`migrate`, `rotate`, `finish` and `undo` of
-- crates/passalong-core/src/encryption/rewrite.rs), which runs the engine.
mod Prelude
pub mod Model
pub mod Store
pub mod Retention
pub mod Crypto
pub mod Fs
pub mod Examples
pub mod Serve
pub mod Cache
pub mod Encryption
pub mod Cli
