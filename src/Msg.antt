-- ===== src/Msg.antt =====
-- msgs/msg.go: the frame that devices and servers exchange.
pub mod Types
pub mod Mask
pub mod Key
pub mod Decode
pub mod Encode
pub mod RoundTrip
