-- ===== src/Datajobs.antt =====
-- code/backend/datajobs.py: the chain puller, which works through symbols and days in the background.
mod Pull
pub mod Counted
pub mod Asked
mod Tests
unfoldable pub use Pull.*
