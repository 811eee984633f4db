-- ===== src/Settings.antt =====
-- code/backend/settings.py: the settings of a user, their bounds and their storage.
mod Spec
mod Store
pub mod Coerced
pub mod Refused
pub mod Within
mod Tests
