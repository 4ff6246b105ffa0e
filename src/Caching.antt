-- ===== src/Caching.antt =====
-- runtime/caching: resources that tasks share or use one after the other.
pub mod Entry
pub mod Sharing
pub mod Requiring
pub mod Conjunction
mod Tests
