-- ===== src/LogSearch.antt =====
-- Search in the pod log: web/src/utils/logSearch.ts and web/src/composables/useLogSearch.ts.
pub mod Scan
pub mod State
pub mod Fresh
pub mod Cursor
mod Tests
