-- ===== src/Backtest.antt =====
-- The backtesting engine: backtest/broker.py, engine.py, checkpoint.py and what they use.
pub mod Broker
pub mod Engine
pub mod Guards
pub mod Branches
pub mod Strategies
pub mod Integrity
pub mod WalkForward
pub mod ExitPlanner
pub mod EntryFilter
mod Tests
mod GuardTests
mod StrategyTests
mod EntryTests
mod BranchTests
mod IntegrityTests
mod WalkForwardTests
mod ExitTests
