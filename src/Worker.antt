-- ===== src/Worker.antt =====
-- worker: the loop that claims tasks, what is done with each claim, and how the worker ends.
pub mod Counter
pub mod Claiming
pub mod Reclaiming
pub mod Superseding
pub mod Processing
pub mod Shutdown
pub mod StoppableOnce
mod Tests
