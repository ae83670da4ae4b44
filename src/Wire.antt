-- ===== src/Wire.antt =====
-- protocol/wire.py: framing, message validation and the order of events.
mod Tests
pub mod Frames
pub mod Json
pub mod Base64
pub mod Address
pub mod Terminal
pub mod Events
