-- ===== src/Cluster.antt =====
-- The scheduler and a worker together: what comes of a task that a worker has run.
pub mod Settling
mod Tests
