-- ===== src/Session.antt =====
-- srv/devsess.go and the handlers of srv/devbusi.go that work on the table of sessions.
pub mod Types
pub mod Replay
pub mod Pool
pub mod Users
pub mod Dispatch
pub mod Forward
pub mod Children
pub mod Handlers
pub mod Serving
pub mod Push
pub mod Notices
pub mod Readable
pub mod Login
pub mod Commands
pub mod Loop
pub mod Registration
