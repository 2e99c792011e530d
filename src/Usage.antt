-- ===== src/Usage.antt =====
-- src/utils/dashboard-stats.ts: tokens used within a window of time, of the whole proxy and of each
-- composite alias.
pub mod Events
pub mod Window
pub mod Aliases
pub mod Tests
