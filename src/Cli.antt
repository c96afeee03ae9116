-- ===== src/Cli.antt =====
-- The commands of the CLI: crates/bsk-cli/src/cli.
pub mod Errors
pub mod Targets
pub mod Durations
pub mod Emulate
pub mod Update
pub mod Doctor
