-- ===== src/Bus/Effect.antt =====
-- What the calls on LocalBus do when no delivery runs on the thread, and what they do when one
-- runs.
pub mod Idle
pub mod Members
pub mod Leaving
pub mod Posting
pub mod Listing
pub mod Running
