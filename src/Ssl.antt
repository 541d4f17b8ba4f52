-- ===== src/Ssl.antt =====
-- uvloop/sslproto.pyx: TLS over a stream transport.
pub mod State
pub mod Writing
pub mod Closing
pub mod Handshake
pub mod Forward
pub mod Backlog
pub mod Lifecycle
mod Tests
