-- ===== src/Protorun.antt =====
-- pkg/protorun: the runtime and its parts.
pub mod Floats
pub mod Retry
pub mod Ipc
pub mod Lifecycle
pub mod Logging
pub mod Loop
pub mod Options
pub mod Messages
pub mod Codec
pub mod Dispatch
pub mod Router
pub mod Timer
pub mod Examples
