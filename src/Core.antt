-- ===== src/Core.antt =====
-- The core of the queue, include/mq/core and src/core.
pub mod Topic
pub mod Queues
pub mod Groups
pub mod Storage
pub mod Memory
pub mod Stores
pub mod Tests
