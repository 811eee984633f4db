-- ===== src/Autorecord.antt =====
-- code/backend/autorecord.py: starring a symbol starts to record it, and un-starring stops that.
mod Stars
pub mod Started
pub mod Starring
pub mod Stopped
mod Tests
unfoldable pub use Stars.*
