-- ===== src/Vision.antt =====
-- The crate `agentic-vision` (crates/agentic-vision/src).
pub mod Types
pub mod Result
pub mod Store
pub mod Storage
pub mod Diff
pub mod Similarity
pub mod Files
