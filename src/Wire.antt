-- ===== src/Wire.antt =====
-- Frames on a TCP connection: the gateway's of srv/ws.go and the sentinels' of srv/sentinel.go.
pub mod Stream
pub mod Gateway
pub mod Resync
pub mod Delivery
