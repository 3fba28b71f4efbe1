-- ===== src/Wire.antt =====
-- The serialised form of the messages between two bridges: src/zerobus/serialization.h and
-- src/zerobus/serialization.cpp, in two layers: numbers and strings, then whole messages.
pub mod Uint
pub mod Codec
mod Tests
