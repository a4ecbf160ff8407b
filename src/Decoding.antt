-- ===== src/Decoding.antt =====
-- pace/llm: how tokens are chosen, when a sequence stops, and speculative decoding.
mod Examples
pub mod Stopping
pub mod Sampler
pub mod Speculative
pub mod Generator
