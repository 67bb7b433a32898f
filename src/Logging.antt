-- ===== src/Logging.antt =====
-- The log files (src/doccontext/logging_config.py).
pub mod Setup
pub mod Channels
pub mod Files
pub mod Events
