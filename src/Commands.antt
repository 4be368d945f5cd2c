-- ===== src/Commands.antt =====
-- The commands: cmd/setup and cmd/sync, composed of the parts that the other modules model.
pub mod Source
pub mod Connects
pub mod Setup
pub mod Sync
pub mod Api
mod Tests
mod SetupTests
mod SyncTests
