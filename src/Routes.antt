-- ===== src/Routes.antt =====
-- src/utils/config-loader.ts: the route of a model name, from the sections of models to schedules and
-- composite aliases.
pub mod Models
pub mod Lookup
pub mod Resolve
pub mod Tests
