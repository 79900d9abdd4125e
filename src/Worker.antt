-- ===== src/Worker.antt =====
-- taskrunner/workers/: a worker node, its channels and its executor.
pub mod Start
pub mod Sockets
pub mod Ipc
pub mod Counters
pub mod Executor
pub mod Runtime
pub mod Sound
pub mod Histories
pub mod Doomed
pub mod Ends
pub mod Stops
pub mod Outcomes
mod Tests
