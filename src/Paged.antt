-- ===== src/Paged.antt =====
-- pace/llm/attention/paged: key-value caches in fixed-size blocks.
pub mod Blocks
pub mod Slots
pub mod Store
pub mod Cache
pub mod Metadata
pub mod Pool
pub mod Engine
