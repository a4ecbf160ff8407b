-- ===== src/Router.antt =====
-- The router of pace/server/router: the worker of the prefill-first scheduler.
pub mod Requests
pub mod Worker
pub mod Streams
pub mod Sound
pub mod Conserved
pub mod Runs
pub mod Metrics
pub mod Engines
mod Examples
