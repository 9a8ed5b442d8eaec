-- ===== src/Polling.antt =====
-- The polling loop of web/src/composables/usePollingLoop.ts.
pub mod Loop
pub mod Counts
pub mod Chain
pub mod Cadence
mod Tests
