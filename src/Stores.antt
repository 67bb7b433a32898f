-- ===== src/Stores.antt =====
-- Vector stores (src/doccontext/vector_stores/) and embedders (src/doccontext/embeddings/).
pub mod Interface
pub mod Qdrant
pub mod Scan
pub mod Tenants
pub mod Memory
pub mod Promise
pub mod Deletion
pub mod Upserts
