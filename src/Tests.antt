-- ===== src/Tests.antt =====
-- Runs of the models on concrete inputs, and the theorems applied to concrete inputs.
pub mod Utility
pub mod Routes
pub mod Headers
pub mod Query
pub mod Request
pub mod Json
pub mod JsonObject
pub mod ThreadPool
pub mod Collections
pub mod Service
pub mod Handlers
pub mod Runner
pub mod Stopping
pub mod Blocks
pub mod Startup
pub mod Descriptors
pub mod Serving
