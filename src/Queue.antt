-- ===== src/Queue.antt =====
-- core/queue: task states, errors, messages, middleware, and the run of one task.
pub mod State
pub mod Error
pub mod Message
pub mod Stage
pub mod Option
pub mod Execute
pub mod Middleware
pub mod Dispatch
pub mod Record
