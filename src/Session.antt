-- ===== src/Session.antt =====
-- src/session: a command's process (`shutdown.rs`, `lifecycle.rs`), its output (`output.rs`), and
-- the sessions that hold them (`mod.rs`).
pub mod Utf8
pub mod Output
pub mod Reader
pub mod World
pub mod Process
pub mod Runtime
pub mod Manager
pub mod Shutdown
pub mod Events
mod Tests
mod LifecycleTests
