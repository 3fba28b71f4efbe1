-- ===== src/Bridge.antt =====
-- The bridge between two buses: src/zerobus/bridge.h, src/zerobus/bridge.cpp and
-- src/zerobus/filter.h.
pub mod Api
pub mod Channels
pub mod Receive
pub mod Listener
pub mod View
pub mod Local
pub mod Cycle
mod Tests
