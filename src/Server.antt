-- ===== src/Server.antt =====
-- internal/server: validation, restart policies, the stream manager with its supervisor, and the
-- REST handlers.
pub mod Restart
pub mod Validate
pub mod Supervisor
pub mod Manager
pub mod Handlers
pub mod Health
pub mod Auth
pub mod Redact
pub mod Decode
pub mod Routes
mod Tests
