-- ===== src/LogLines.antt =====
-- The lines of a log on screen: web/src/utils/logJson.ts and web/src/utils/logSearch.ts.
pub mod Token
pub mod Literals
pub mod Splits
pub mod Scan
pub mod Steps
pub mod Parts
pub mod Tokens
pub mod Segments
pub mod Painted
pub mod Cuts
pub mod Hits
pub mod Marked
pub mod Highlight
mod Tests
