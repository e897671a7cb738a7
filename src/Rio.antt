-- ===== src/Rio.antt =====
-- segel.c: the Rio package, which reads and writes robustly over `read` and `write`.
pub mod Read
pub mod Line
pub mod Write
pub mod Fill
pub mod Wrapped
