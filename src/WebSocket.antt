-- ===== src/WebSocket.antt =====
-- WebSocket frames and the accept key: src/zerobus/websocket.h and src/zerobus/websocket.cpp.
pub mod Frame
pub mod Parser
pub mod Builder
pub mod RoundTrip
pub mod Messages
pub mod Fragments
pub mod Sha1
pub mod Accept
mod Tests
