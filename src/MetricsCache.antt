-- ===== src/MetricsCache.antt =====
-- The shared cache of metric buffers, web/src/utils/metricsCache.ts.
pub mod Cache
pub mod Bound
pub mod Trimmed
pub mod Buffers
pub mod Clear
mod Tests
