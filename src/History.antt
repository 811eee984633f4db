-- ===== src/History.antt =====
-- The permanent bars of code/backend/marketdb.py: bar_hist, bar_hist_src and bar_hist_meta.
pub mod Tables
pub mod Spans
pub mod Kept
pub mod Held
pub mod Marked
pub mod Spliced
mod Tests
