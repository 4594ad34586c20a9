-- ===== src/App.antt =====
-- internal/app: the use cases, over the interfaces of Ports.
mod Tests
pub mod Notes
pub mod Auth
pub mod Gateway
