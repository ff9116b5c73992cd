-- ===== src/Queue.antt =====
-- The background job queue: backend/app/jobs and backend/app/queue.
pub mod Job
pub mod Redis
pub mod RedisQueue
pub mod Transitions
pub mod Refinement
pub mod Placement
pub mod Recovery
pub mod Lifecycle
pub mod Retry
pub mod Fifo
pub mod Crash
pub mod Memory
mod Examples
