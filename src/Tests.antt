-- ===== src/Tests.antt =====
-- Runs of the models at concrete inputs, one module to a part of the program.
pub mod Transfer
pub mod Multipart
pub mod Captured
pub mod Replayed
pub mod Rewritten
pub mod Conversations
pub mod Posted
pub mod Operated
pub mod Started
pub mod Listening
pub mod Served
pub mod Probed
pub mod Serving
