-- ===== src/Js.antt =====
-- What the source uses of JavaScript's own library: maps, sets, text and numbers.
pub mod Map
pub mod Text
pub mod Number
