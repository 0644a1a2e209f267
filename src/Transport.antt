-- ===== src/Transport.antt =====
-- pkg/transport.
pub mod Host
pub mod Layer
pub mod Frame
pub mod Handshake
pub mod Session
pub mod Tcp
pub mod Examples
