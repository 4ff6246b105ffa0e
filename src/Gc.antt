-- ===== src/Gc.antt =====
-- runtime/gc: reference counted resources, and the garbage collector that disposes of the least
-- recently used ones while the system is low on disk space or memory.
pub mod Resource
pub mod Collector
pub mod Tracking
pub mod Passing
pub mod Collecting
pub mod Failing
mod Tests
