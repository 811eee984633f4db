-- ===== src/Onclick.antt =====
-- code/backend/onclick.py: the chain puller's window, its guard on what came back, and its retries.
-- A date is a calendar ordinal. The network is a parameter: what the server does at each attempt.
mod Window
mod Fetch
pub mod Laws
mod Tests
unfoldable pub use Window.*
unfoldable pub use Fetch.*
