-- ===== src/Tests.antt =====
-- The theorems at concrete inputs.
mod Pool
mod Log
mod Streams
mod Requests
mod Startup
mod Asked
mod Fetched
mod Spun
mod World
