-- ===== src/Tests.antt =====
-- Runs at concrete inputs: a server with a CAN socket, in several states, the start and the logger,
-- and what the theorems say of them.
pub mod Worlds
pub mod Serving
pub mod Threads
pub mod Sequences
pub mod Valves
pub mod Messages
pub mod Setup
pub mod Logging
