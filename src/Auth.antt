-- ===== src/Auth.antt =====
-- The session store, web/src/stores/auth.ts.
pub mod Json
pub mod Storage
pub mod Store
pub mod Prune
pub mod SignOut
pub mod Decode
pub mod Restore
mod Tests
