-- ===== src/Stats.antt =====
-- The package stats: aggregation values, aggregators, collectors, views, and the worker.
pub mod Float64
pub mod Outcome
pub mod Aggregation
pub mod Ring
pub mod SlidingTime
pub mod SlidingCount
pub mod Aggregator
pub mod Registry
pub mod View
pub mod Commands
pub mod Handlers
pub mod Worker
pub mod Api
pub mod Examples
