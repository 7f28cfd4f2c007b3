-- ===== src/Api.antt =====
-- internal/api: the HTTP handlers, on top of the calls of the logic layer.
pub mod Backend
pub mod Chat
pub mod Auth
pub mod Group
