-- ===== src/Bus.antt =====
-- The local message broker: src/zerobus/local_bus.h and src/zerobus/local_bus.cpp.
pub mod Channel
pub mod BackPath
pub mod State
pub mod Deferred
pub mod Subscriptions
pub mod Groups
pub mod Serial
pub mod Routing
pub mod Delivery
pub mod Valid
pub mod Effect
mod Tests
