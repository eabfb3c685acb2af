-- ===== src/Http.antt =====
-- src/http.h and src/http.c.
pub mod Names
pub mod Routes
pub mod Headers
pub mod HeaderLine
pub mod HeaderBlock
pub mod Query
pub mod Request
pub mod Response
