-- ===== src/Imports.antt =====
-- code/backend/btdata.py: option chains imported into the store of the backtests.
mod Contracts
mod Chain
pub mod Written
pub mod Sessions
pub mod Whole
mod Tests
pub use Contracts.*
unfoldable pub use Chain.*
