-- ===== src/Setup/Factories.antt =====
-- The factories: embeddings/factory.py, vector_stores/factory.py, queue/factory.py, llm/factory.py
-- and chunking/__init__.py. What the constructors of the providers do is an argument.
use doccontext.Base.{none, some, List, [], ◌∷◌, ◌++◌, Text, codes, same, if◌then◌else◌}
use doccontext.Base.Exn.{Result, ok, raise, throw, not_implemented, unknown_provider}
use doccontext.Base.Exec.{Exec}
use doccontext.Base.Dict.{Dict, lookup, update}
use doccontext.Base.Runtime.{Runtime, repr_text}
use doccontext.Chunking.Defs.{RecursiveCharacterChunker, default_separators, init}
use doccontext.Stores.Interface.{Embedder}
use doccontext.Stores.Qdrant.{contains_text}
use doccontext.Setup.Config.{Settings}
use doccontext.Setup.Embeddings.{SentenceTransformer, minilm_embedder}

-- `_KNOWN_PROVIDERS` of each factory
abbrev pub known_embeddings : List Text
known_embeddings =
    codes "minilm" ∷ codes "e5" ∷ codes "bge-m3" ∷ codes "arctic-l-v2" ∷ codes "mxbai" ∷ []

abbrev pub known_vector_stores : List Text
known_vector_stores =
    codes "qdrant" ∷ codes "weaviate" ∷ codes "milvus" ∷ codes "pgvector" ∷ codes "pinecone" ∷ []

abbrev pub known_queues : List Text
known_queues = codes "rabbitmq" ∷ codes "sqs" ∷ codes "nats" ∷ codes "kafka" ∷ codes "redis" ∷ []

abbrev pub known_llms : List Text
known_llms = codes "openrouter" ∷ codes "openai" ∷ codes "anthropic" ∷ codes "ollama" ∷ []

-- `default_chunker`
unfoldable pub default_chunker : Settings → Result RecursiveCharacterChunker
default_chunker s = init s.chunk_size s.chunk_overlap default_separators

module _ (R : Runtime) where
  -- The end of a factory: a provider that is reserved, or one that is unknown.
  unfoldable pub no_provider : {A : Type 0} → List Text → Text → Text → Result A
  no_provider known what provider =
      if contains_text known provider
      then throw not_implemented (
          what
          ++ codes " provider "
          ++ repr_text R provider
          ++ codes " is reserved but not yet implemented")
      else throw unknown_provider
          (codes "unknown " ++ what ++ codes " provider: " ++ repr_text R provider)

  -- `get_vector_store`; `build` is `QdrantVectorStore`.
  unfoldable pub get_vector_store : {A : Type 0} → (Settings → Result A) → Settings → Result A
  unfolding no_provider
  get_vector_store build s =
      if same s.vector_store_provider (codes "qdrant")
      then build s
      else no_provider known_vector_stores (codes "vector store") s.vector_store_provider

  -- `get_queue_publisher`; `build` is `RabbitMQPublisher`.
  unfoldable pub get_queue_publisher : {A : Type 0} → (Settings → A) → Settings → Result A
  unfolding no_provider
  get_queue_publisher build s =
      if same s.queue_provider (codes "rabbitmq")
      then ok (build s)
      else no_provider known_queues (codes "queue") s.queue_provider

  -- `get_queue_consumer`; `build` is `RabbitMQConsumer`.
  unfoldable pub get_queue_consumer : {A : Type 0} → (Settings → A) → Settings → Result A
  unfolding no_provider
  get_queue_consumer build s =
      if same s.queue_provider (codes "rabbitmq")
      then ok (build s)
      else no_provider known_queues (codes "queue") s.queue_provider

  -- `getattr(s, "llm_provider", "openrouter")`: `Settings` has no such field.
  abbrev llm_provider : Settings → Text
  llm_provider s = codes "openrouter"

  -- `get_llm_client`; `build` is `OpenRouterClient`.
  unfoldable pub get_llm_client : {A : Type 0} → (Settings → A) → Settings → Result A
  unfolding no_provider
  get_llm_client build s =
      if same (llm_provider s) (codes "openrouter")
      then ok (build s)
      else no_provider known_llms (codes "LLM") (llm_provider s)

  -- What `lru_cache` keeps of `_build`, beside the world that a model is loaded from.
  pub record Models (S : Type 0) : Type 0 where
    pub built : Dict (Embedder R.Float)
    pub world : S

  module _ {S : Type 0} (load_model : Exec S (SentenceTransformer R.Float)) where
    abbrev loaded : Result (SentenceTransformer R.Float) × S → Result (Embedder R.Float) × S
    loaded (ok model, w) = (ok (minilm_embedder model), w)
    loaded (raise e, w) = (raise e, w)

    -- The body of `_build`; `load_model` is what `MiniLMEmbedder()` does.
    unfoldable pub build_embedder : Text → Exec S (Embedder R.Float)
    unfolding no_provider
    build_embedder provider w =
        if same provider (codes "minilm")
        then loaded (load_model w)
        else (no_provider known_embeddings (codes "embedding") provider, w)

    -- A call that raises is not kept.
    abbrev keep_built :
        Text → Models S → Result (Embedder R.Float) × S → Result (Embedder R.Float) × Models S
    keep_built provider c (ok e, w) =
        (ok e, record { built = update provider (λ _. e) c.built; world = w })
    keep_built provider c (raise exc, w) = (raise exc, record { built = c.built; world = w })

    -- `get_embedder`, and `_build` under `lru_cache(maxsize=None)`
    unfoldable pub get_embedder : Settings → Exec (Models S) (Embedder R.Float)
    unfolding lookup
    get_embedder s c = elim (lookup s.embedding_provider c.built) [
      | some e ↦ (ok e, c)
      | none ↦ keep_built s.embedding_provider c (build_embedder s.embedding_provider c.world)
    ]

    -- `clear_embedder_cache`
    unfoldable pub clear_embedder_cache : Models S → Models S
    clear_embedder_cache c = record c { built = [] }
