-- ===== src/Watch.antt =====
-- src/local/watch: the client that follows a local runtime.
pub mod Records
pub mod Cards
pub mod State
pub mod View
pub mod Arrivals
pub mod Input
pub mod Model
pub mod Sse
mod Tests
mod ModelTests
