-- ===== src/Patch.antt =====
-- src/apply_patch: the application of patches.
pub mod Paths
pub mod Apply
pub mod Conflicts
pub mod Replacement
pub mod Rewrite
pub mod Recovery
mod Tests
mod ApplyTests
