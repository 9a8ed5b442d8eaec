-- ===== src/ResourceList.antt =====
-- The rows of a live table of resources, web/src/composables/useResourceList.ts.
pub mod Rows
pub mod Index
pub mod View
pub mod Loads
pub mod Sound
pub mod Settled
pub mod Origin
pub mod Complete
pub mod Shown
mod Tests
