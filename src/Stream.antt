-- ===== src/Stream.antt =====
-- uvloop/handles/handle.pyx, basetransport.pyx and stream.pyx: a stream transport, its write
-- buffer and its flow control.
pub mod State
pub mod Transport
pub mod WriteContext
pub mod Write
pub mod Laws
pub mod Frame
pub mod Quiet
pub mod Delivery
pub mod Single
pub mod Many
pub mod Join
pub mod Accept
pub mod Runs
mod Tests
