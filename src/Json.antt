-- ===== src/Json.antt =====
-- src/json.h and src/json.c.
pub mod Escape
pub mod StringToken
pub mod Element
pub mod Insertion
pub mod Object
pub mod Printing
