-- ===== src/Uring.antt =====
-- src/engine_uring.cpp: the engine that serves many connections over `io_uring`.
pub mod Engine
pub mod Reply
pub mod Requests
pub mod Connections
pub mod Automata
pub mod Calls
