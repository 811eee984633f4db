-- ===== src/Sessions.antt =====
-- code/backend/sessions.py: the sessions in memory, and the buffers that hold the users' keys.
mod Store
pub mod Sound
pub mod Keys
pub mod Stable
pub mod Newest
pub mod Wiped
mod Tests
unfoldable pub use Store.*
