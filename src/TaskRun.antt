-- ===== src/TaskRun.antt =====
-- worker/taskrun: the life of one task, from its preparation to its resolution and disposal.
pub mod State
pub mod Stages
pub mod Advance
pub mod Frame
pub mod Loop
pub mod Passing
pub mod Resolution
pub mod Abortion
pub mod Dispose
pub mod Disposal
pub mod Verdict
pub mod Samples
mod Tests
