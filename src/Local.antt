-- ===== src/Local.antt =====
-- src/local: the values and the text of a local runtime.
pub mod Quantity
pub mod Sanitize
mod Tests
