-- ===== src/Chart.antt =====
-- code/backend/chartobjects.py: the drawings, measurements, pins, constraints and option legs that are
-- stored for a chart, and their validation.
mod Objects
mod Read
mod Collect
mod Document
pub mod Sound
pub mod Whole
mod Stored
pub mod Listed
mod Tests
