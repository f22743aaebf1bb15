-- ===== src/Users.antt =====
-- The sessions of users' applications: srv/ms.go.
pub mod Types
pub mod Pool
pub mod Push
pub mod Superseded
pub mod Readable
pub mod Params
pub mod Offline
pub mod Lifecycle
pub mod Gateway
