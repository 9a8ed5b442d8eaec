-- ===== src/RingBuffer.antt =====
-- The metric series of web/src/utils/ringBuffer.ts.
pub mod Series
pub mod History
pub mod Replay
pub mod Window
mod Tests
