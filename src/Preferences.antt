-- ===== src/Preferences.antt =====
-- The preferences store, web/src/stores/preferences.ts.
pub mod Store
pub mod Reload
pub mod Pinned
mod Tests
