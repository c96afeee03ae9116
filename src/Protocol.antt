-- ===== src/Protocol.antt =====
-- The wire protocol shared by the CLI, the daemon and the extension: crates/bsk-protocol.
pub mod Method
pub mod Json
pub mod Frame
pub mod Names
pub mod Codec
pub mod Handshake
