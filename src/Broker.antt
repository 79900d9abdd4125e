-- ===== src/Broker.antt =====
-- taskrunner/queue/broker.py: `InMemoryTaskQueue`. The definitions stand in `Entries`, `State`, `Submit`,
-- `Reserve`, `Waiting`, `Settle` and `Views`; the other modules prove what the queue promises. Each method
-- holds the queue's lock from its first statement to its last, so a method is one step of the
-- state, but for `reserve`, which gives the lock up while it waits.
pub mod Entries
pub mod State
pub mod Submit
pub mod Reserve
pub mod Waiting
pub mod Settle
pub mod Views
pub mod Snapshots
pub mod WellFormed
pub mod Preserve
pub mod Promote
pub mod Least
pub mod Scan
pub mod Choice
pub mod Attempt
pub mod Taken
pub mod Reach
pub mod Cancelled
pub mod Filed
pub mod Retries
pub mod Accounted
pub mod Kept
pub mod Requeued
pub mod Promoted
pub mod Serving
pub mod Live
pub mod Capacity
pub mod Returns
mod Runs
pub mod Tests
