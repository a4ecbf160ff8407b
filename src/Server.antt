-- ===== src/Server.antt =====
-- The inference engine server of pace/server/engine/server.py.
pub mod Sequences
pub mod Executor
pub mod Steps
pub mod Queues
pub mod Failure
pub mod Ready
pub mod Prefilled
pub mod Valid
pub mod Conversations
pub mod Batch
pub mod Rounds
pub mod Decode
pub mod Speculation
pub mod Proposals
pub mod Drafting
pub mod Checks
pub mod Phases
pub mod Answers
pub mod Settling
pub mod Speculate
pub mod Runs
mod Examples
