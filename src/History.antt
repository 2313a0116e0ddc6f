-- ===== src/History.antt =====
-- src/local/history: the recording of invocations and of their output.
pub mod Overflow
pub mod OutputQueue
mod Tests
