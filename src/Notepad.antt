-- ===== src/Notepad.antt =====
-- code/backend/notepad.py: the entries that the user and the agent have grabbed.
mod Secret
mod Payload
pub mod Store
mod Label
pub mod Accepted
pub mod Pad
pub mod Granted
pub mod Refines
pub mod Sealed
pub mod Found
mod Codec
mod Tests
