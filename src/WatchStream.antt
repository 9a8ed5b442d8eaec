-- ===== src/WatchStream.antt =====
-- The watch stream of web/src/composables/useWatch.ts.
pub mod Machine
pub mod Chunks
pub mod Safety
mod Tests
