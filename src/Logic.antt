-- ===== src/Logic.antt =====
-- The logic layer, internal/logic.
pub mod MessageId
pub mod Error
pub mod Store
pub mod GroupCache
pub mod GroupServer
pub mod ChatServer
pub mod AuthServer
pub mod Samples
mod Tests
