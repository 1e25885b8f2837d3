-- ===== src/Worker.antt =====
-- gateway-worker/src: the worker that takes jobs from the queue.
pub mod Number
pub mod Records
pub mod World
pub mod Repositories
pub mod Lifecycle
pub mod ProcessEvent
pub mod Backlog
pub mod IdempotencyKey
pub mod Interleaving
pub mod Review
pub mod Retry
pub mod Classifier
