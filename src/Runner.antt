-- ===== src/Runner.antt =====
-- The server of src/runner.c: what it does with the bytes that a client sends.
pub mod Answers
pub mod Buffers
pub mod Dispatch
pub mod Handlers
pub mod Sharing
pub mod Sending
pub mod Startup
