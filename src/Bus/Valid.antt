-- ===== src/Bus/Valid.antt =====
-- When the state of LocalBus is well formed, and what the calls do to such a state.
pub mod Channels
pub mod Boxes
pub mod State
pub mod Deferred
pub mod Subscriptions
pub mod Groups
pub mod Messages
pub mod Routing
pub mod Delivery
pub mod Initial
