-- ===== src/Io.antt =====
-- io/: the event loop, the helpers that send or receive a whole buffer, and what sockets and timers
-- make of the results of the system's calls.
pub mod Context
pub mod Transfer
pub mod Socket
pub mod Owners
pub mod Setup
