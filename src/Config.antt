-- ===== src/Config.antt =====
-- pace/llm/configs.py: the sampling parameters of a call of the generator.
pub mod Sampling
pub mod Merging
pub mod Checks
pub mod Prepared
mod Examples
