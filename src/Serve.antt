-- ===== src/Serve.antt =====
-- What `serve` does on its own (crates/passalong-core/src/serve): when it retries, which clipboard
-- contents are new and which dropped files are ready to send.
pub mod Backoff
pub mod ClipboardWatcher
pub mod DropTracker
pub mod Upload
pub mod Pull
