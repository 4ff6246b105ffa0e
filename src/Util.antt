-- ===== src/Util.antt =====
-- runtime/util: functions that are called in parallel.
pub mod Spawning
mod Tests
