-- ===== src/Parse.antt =====
-- src/helpers/parse.hpp: from a packet to the callback that serves it.
pub mod Dom
pub mod Http
pub mod Callback
pub mod Pointer
