-- ===== src/Fetching.antt =====
-- runtime/fetcher: downloads with retries, and with hashes that are checked.
pub mod Download
pub mod Hashed
pub mod Streaming
pub mod Keys
mod Tests
