-- ===== src/Favorites.antt =====
-- code/backend/favorites.py: the table of favorites, and the capture of a site's icon, which must not be
-- steered into the local network.
mod Icon
mod Store
pub mod Starred
pub mod Limits
pub mod Order
pub mod Guarded
mod Tests
unfoldable pub use Icon.*
