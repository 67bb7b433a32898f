-- ===== src/Setup/Embeddings.antt =====
-- embeddings/minilm.py over any model, and the cache of embeddings/factory.py.
use doccontext.Base.{List, [], ◌∷◌, Text, codes}
use doccontext.Base.Exn.{Result, ok}
use doccontext.Stores.Interface.{Embedder}

-- `SentenceTransformer`: `encode` with normalised vectors, as lists.
pub record SentenceTransformer (F : Type 0) : Type 0 where
  pub encode : List Text → Result (List (List F))

module _ {F : Type 0} where
  -- `MiniLMEmbedder.embed`
  unfoldable pub embed_texts : SentenceTransformer F → List Text → Result (List (List F))
  embed_texts model [] = ok []
  embed_texts model (t ∷ texts) = model.encode (t ∷ texts)

  -- `MiniLMEmbedder`
  abbrev pub minilm_embedder : SentenceTransformer F → Embedder F
  minilm_embedder model = record { dim = 384; embed = embed_texts model }

abbrev pub model_id : Text
model_id = codes "sentence-transformers/all-MiniLM-L6-v2"
