-- ===== src/Store.antt =====
-- The household data file: examples/web/rsswitch_web/store.py.
pub mod Find
pub mod Record
pub mod File
pub mod LastSent
