-- ===== src/Worker.antt =====
-- backend/app/workers/product_worker.py: one round of a worker, over the queue of module Queue.
pub mod Rounds
pub mod Settled
pub mod Outcomes
mod Examples
