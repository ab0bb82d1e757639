-- ===== src/Api.antt =====
-- The JSON API: examples/web/rsswitch_web/api/. Each function that a route gives to `Store.mutate`
-- is a function of the document, which returns the JSON value of the answer and the new document.
pub mod Json
pub mod Common
pub mod Rooms
pub mod Sockets
pub mod Routes
pub mod Switch
