-- ===== src/TaskContext.antt =====
-- runtime/taskcontext.go: what engines and plugins may see of a task, and its controller. Each
-- method holds the lock `mu` throughout, so it is one transition. Scopes are lists of bytes.
pub mod Scopes
pub mod Life
mod Tests
