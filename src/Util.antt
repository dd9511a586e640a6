-- ===== src/Util.antt =====
-- Shared helpers of the application: source/util.
pub mod Size
mod Tests
