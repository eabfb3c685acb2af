-- ===== src/Gdbc.antt =====
-- The web interface for gdb, in gdbc/src.
pub mod Arguments
pub mod Processes
pub mod Build
pub mod Child
pub mod Descriptors
pub mod Race
pub mod Trim
pub mod Numbers
pub mod Run
pub mod Execute
pub mod Callbacks
pub mod Main
