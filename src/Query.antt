-- ===== src/Query.antt =====
-- The query handler (src/doccontext/services/query_service.py).
pub mod Documents
pub mod Grouping
pub mod Rebuild
pub mod Replies
pub mod Handler
pub mod Routing
pub mod Citations
pub mod Access
