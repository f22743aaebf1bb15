-- ===== src/Sentinel.antt =====
-- The routes between gateways: srv/sentinel.go and `handleOnOff` of srv/rds.go.
pub mod Types
pub mod Forward
pub mod Receive
pub mod Routes
pub mod Online
pub mod Connected
pub mod Updated
pub mod Bounds
pub mod Ends
pub mod Delivery
pub mod Commands
