-- ===== src/Connect.antt =====
-- The connect layer, internal/connect: rooms, the room manager, websocket clients and the services
-- that the task layer calls.
pub mod Chan
pub mod Room
pub mod RoomManager
pub mod Client
pub mod GrpcServer
pub mod Reachable
pub mod Registry
pub mod Serve
pub mod Samples
mod Tests
