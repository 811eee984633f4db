-- ===== src/Depth.antt =====
-- code/backend/depth.py: what a visit to a chart still needs, and the queue of the one worker.
mod Plan
mod Queue
mod Fill
pub mod Pending
pub mod Filled
pub mod Horizon
mod Tests
unfoldable pub use Plan.*
unfoldable pub use Queue.*
