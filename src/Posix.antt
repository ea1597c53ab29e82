-- ===== src/Posix.antt =====
-- src/engine_posix.cpp: the engine that serves one connection at a time with blocking calls.
pub mod Fill
pub mod Engine
pub mod Reply
pub mod Forward
pub mod Take
pub mod Params
