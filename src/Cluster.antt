-- ===== src/Cluster.antt =====
-- The live cluster of Agartha bots: backtest/agartha_cluster.
pub mod Models
pub mod StateMachine
pub mod Throttle
pub mod Queue
pub mod Scheduler
pub mod Orders
pub mod Bots
pub mod Exec
pub mod World
pub mod Runner
pub mod Reconciler
pub mod Service
pub mod History
mod Tests
mod QueueTests
mod OrderTests
mod HistoryTests
mod RunnerTests
mod DeployTests
