-- ===== src/Queue.antt =====
-- The doubly linked queue of common/queue.go, with its counter of cloud-base/atomic/atomic.go.
pub mod Types
pub mod Ends
pub mod Search
pub mod Cells
mod Relink
pub mod Laws
pub mod Unlinking
mod Between
pub mod Removal
pub mod Refinement
pub mod Cursor
pub mod Retrain
