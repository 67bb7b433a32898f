-- ===== src/Setup.antt =====
-- The settings and what is built from them (src/doccontext/config.py, the factories, the
-- connections and the entry points).
pub mod Config
pub mod Embeddings
pub mod Factories
pub mod Defaults
pub mod Process
pub mod Worker
pub mod Server
pub mod Supported
pub mod Refusal
