-- ===== src/Services.antt =====
-- The gRPC handlers (src/doccontext/services/).
pub mod Converters
pub mod Handlers
pub mod Submission
pub mod FileTypes
