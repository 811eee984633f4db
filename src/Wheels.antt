-- ===== src/Wheels.antt =====
-- code/backend/wheels.py: the document of a user's gesture wheels, its validation and its storage.
mod Vocabulary
mod Document
mod Segments
pub mod Validate
pub mod Valid
pub mod Whole
pub mod Sound
pub mod ReadBack
pub mod RoundTrip
mod Stored
pub mod Kept
pub mod Named
mod Tests
unfoldable pub use Vocabulary.*
unfoldable pub use Document.*
