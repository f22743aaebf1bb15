-- ===== src/Msg/RoundTrip.antt =====
-- What `Msg2Binary` writes, `Binary2Msg` reads back.
mod Flags
mod Data
pub mod Front
mod Frame
pub mod Levels
pub mod Plain
pub mod Random
pub mod Secret
pub mod Resealed
pub mod Stale
mod Body
pub mod Dispatch
