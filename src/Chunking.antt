-- ===== src/Chunking.antt =====
-- The chunker (src/doccontext/chunking/).
pub mod Defs
pub mod Shape
pub mod Split
pub mod Windows
pub mod Overlap
pub mod Separators
pub mod Cover
pub mod Passages
pub mod Short
