-- ===== src/Server.antt =====
-- The request queue, the threads that share it, and how the server starts them.
pub mod Queue
pub mod Pool
pub mod Args
pub mod Worker
pub mod World
