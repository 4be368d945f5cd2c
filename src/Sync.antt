-- ===== src/Sync.antt =====
-- internal/sync/sync.go: one pass of the synchronisation from the VPS to the mirror.
pub mod Store
pub mod Rows
pub mod Run
pub mod Cleanup
pub mod Statements
pub mod Watermark
pub mod Runs
pub mod Mirror
pub mod Progress
pub mod Recovery
pub mod Lock
pub mod Steps
pub mod Interleaving
mod Tests
