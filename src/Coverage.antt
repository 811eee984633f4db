-- ===== src/Coverage.antt =====
-- code/backend/coverage.py: what is known about each period of each feed, and which periods are
-- still worth asking about. The table `data_cover` is a list of rows with at most one row for a
-- slot (provider, kind, symbol, timeframe, period). A period is a calendar day (its ISO text has
-- the same order), and a time is a number of seconds.
mod Types
mod Mark
mod Gaps
pub mod Wanted
pub mod Claims
pub mod Earned
pub mod Retry
mod Tests
unfoldable pub use Types.*
unfoldable pub use Mark.*
unfoldable pub use Gaps.*
