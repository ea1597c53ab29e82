-- ===== src/Tests.antt =====
-- Concrete requests, pipes and engines, and what the theorems say of them.
mod Pipes
pub mod Requests
pub mod Replies
mod Rings
mod Sockets
mod Setups
pub mod Agreement
mod Printing
mod Circles
mod Procedures
