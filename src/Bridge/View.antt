-- ===== src/Bridge/View.antt =====
-- What the other side of a bridge knows of its channels, by the updates that were sent to it
-- (AbstractBridge::process_mine_channels in src/zerobus/bridge.cpp).
pub mod Difference
pub mod Announce
pub mod Requests
pub mod Rules
pub mod Rounds
