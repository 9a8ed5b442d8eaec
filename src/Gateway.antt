-- ===== src/Gateway.antt =====
-- The resource layer of web/src/api/k8s.ts, with the tables of web/src/utils/tableFallback.ts.
pub mod Path
pub mod Segments
pub mod Requests
pub mod Selection
pub mod Table
pub mod Walk
pub mod Pages
pub mod Failure
pub mod Namespaces
mod Tests
