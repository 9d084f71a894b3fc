-- ===== src/Tcp.antt =====
-- pytcp/protocols/tcp: the session with its finite state machine (session.py).
pub mod State
pub mod Outcome
pub mod Output
pub mod Input
pub mod Fsm
pub mod Termination
pub mod Limits
pub mod Moves
pub mod Sequence
pub mod Stream
pub mod Syscalls
mod Tests
