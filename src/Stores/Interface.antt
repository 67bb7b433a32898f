-- ===== src/Stores/Interface.antt =====
-- vector_stores/base.py and embeddings/base.py: the abstract classes, as the operations that an
-- implementation gives.
use doccontext.Base.{ℕ, List, Text}
use doccontext.Base.Exn.{Result}
use doccontext.Base.Exec.{Exec}
use doccontext.Models.{StoredChunk, RetrievedChunk}

-- `VectorStore`
pub record VectorStore (F : Type 0) : Type 1 where
  pub State : Type 0
  pub ensure_collection : ℕ → Exec State Unit
  pub upsert : List (StoredChunk F) → Exec State ℕ
  -- query_vector, client_id, corpus_ids, top_k
  pub search : List F → Text → List Text → ℕ → Exec State (List (RetrievedChunk F))
  -- client_id, document_id
  pub delete_by_document : Text → Text → Exec State ℕ
  -- client_id, corpus_ids, limit
  pub list_chunks_for_corpora : Text → List Text → ℕ → Exec State (List (RetrievedChunk F))

-- `Embedder`
pub record Embedder (F : Type 0) : Type 0 where
  pub dim : ℕ
  pub embed : List Text → Result (List (List F))
