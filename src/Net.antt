-- ===== src/Net.antt =====
-- The network context on Linux: src/zerobus/network_linux.h and network_linux.cpp.
pub mod Socket
pub mod Timer
pub mod Call
pub mod Valid
pub mod Event
pub mod Command
mod Tests
