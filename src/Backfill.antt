-- ===== src/Backfill.antt =====
-- code/backend/backfill.py: the work list of missing periods, one unit of work, and a run of the
-- list. The provider's `fetch` is a parameter: it returns rows or raises.
mod Plan
mod Work
pub mod Runs
pub mod Effects
pub mod Evidence
mod Tests
unfoldable pub use Plan.*
unfoldable pub use Work.*
