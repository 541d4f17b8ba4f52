-- ===== src/Loop.antt =====
-- uvloop/loop.pyx, with uvloop/cbhandles.pyx and the idle, check, async and timer handles: the
-- event loop's queue of callbacks.
pub mod State
pub mod Queue
pub mod Rounds
pub mod Code
pub mod Turns
pub mod Grow
pub mod Served
pub mod Order
pub mod Later
pub mod Steady
pub mod Clock
pub mod Clearing
pub mod Timers
pub mod Known
pub mod Round
mod Tests
