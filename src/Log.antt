-- ===== src/Log.antt =====
-- log.c and log.h: the shared server log, a growing text behind a readers-writer lock in which
-- writers go first.
pub mod Buffer
pub mod Guard
pub mod Whole
pub mod Threads
