-- ===== src/Cli.antt =====
-- The command line (crates/passalong-cli/src): what it decides apart from printing.
pub mod Picker
