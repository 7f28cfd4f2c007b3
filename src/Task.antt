-- ===== src/Task.antt =====
-- internal/task: the consumers of the queue, and their connections to the connect nodes.
pub mod ClientPool
pub mod Consumer
pub mod Chat
pub mod Routing
pub mod Group
pub mod Room
pub mod Persist
mod Samples
mod Tests
