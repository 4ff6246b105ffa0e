-- ===== src/Io.antt =====
-- runtime/ioext: pipes with a buffer or a budget, and readers that stop at a limit.
pub mod AsyncPipe
pub mod Buffering
pub mod BlockedPipe
pub mod Budget
pub mod AtMost
pub mod Limit
mod Tests
