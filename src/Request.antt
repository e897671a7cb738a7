-- ===== src/Request.antt =====
-- request.c and request.h: reading an HTTP request, finding the file and answering it.
pub mod Stats
pub mod Uri
pub mod Headers
pub mod Session
pub mod Answer
pub mod Handle
