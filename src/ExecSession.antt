-- ===== src/ExecSession.antt =====
-- The exec terminal's session: web/src/composables/useExecSession.ts.
pub mod Session
pub mod Sockets
pub mod Tidy
pub mod Leaks
pub mod Stopped
mod Tests
