-- ===== src/Model.antt =====
-- The data file format: examples/web/rsswitch_web/model.py.
pub mod Types
pub mod Check
pub mod View
pub mod Valid
pub mod Sound
pub mod Encode
pub mod Complete
