-- ===== src/Atomics.antt =====
-- runtime/atomics: an atomic boolean, a once-only action that can be waited for, and a wait group
-- that can be drained. Each method holds the object's lock from start to end, or up to a wait, so
-- it is one transition on the object's state; a thread that waits is a test of that state.
pub mod Flag
pub mod Once
pub mod WaitGroup
mod Tests
