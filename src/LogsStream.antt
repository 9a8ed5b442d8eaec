-- ===== src/LogsStream.antt =====
-- The streaming of pod logs, web/src/composables/useLogsStream.ts.
pub mod Buffer
pub mod Machine
pub mod Tail
pub mod Handed
pub mod Shown
pub mod Connection
pub mod Retry
mod Tests
