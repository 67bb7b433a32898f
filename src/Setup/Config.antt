-- ===== src/Setup/Config.antt =====
-- config.py: `Settings`, its URLs, and the cache of `get_settings`. A `Path` is its text.
use doccontext.Base.{Option, none, some, ◌++◌, Text, codes, starts_with, if◌then◌else◌}
use doccontext.Base.Int.{ℤ, pos}
use doccontext.Base.Exn.{Result, ok, raise}
use doccontext.Base.Exec.{Exec}
use doccontext.Base.Json.{int}
use doccontext.Base.Runtime.{Runtime}

-- `Settings`
pub record Settings : Type 0 where
  pub grpc_host : Text
  pub grpc_port : ℤ
  pub qdrant_host : Text
  pub qdrant_port : ℤ
  pub qdrant_api_key : Option Text
  pub qdrant_collection_prefix : Text
  pub rabbitmq_host : Text
  pub rabbitmq_port : ℤ
  pub rabbitmq_user : Text
  pub rabbitmq_password : Text
  pub rabbitmq_vhost : Text
  pub rabbitmq_document_jobs_queue : Text
  pub postgres_host : Text
  pub postgres_port : ℤ
  pub postgres_user : Text
  pub postgres_password : Text
  pub postgres_db : Text
  pub embedding_provider : Text
  pub vector_store_provider : Text
  pub queue_provider : Text
  pub chunk_size : ℤ
  pub chunk_overlap : ℤ
  pub openrouter_api_key : Text
  pub openrouter_base_url : Text
  pub llm_router_model : Text
  pub llm_answer_model : Text
  pub query_top_k_default : ℤ
  pub max_concurrent_queries : ℤ
  pub log_level : Text
  pub log_dir : Text
  pub log_file_index_document : Text
  pub log_file_get_indexing_job_status : Text
  pub log_file_query_documents : Text
  pub log_file_delete_document : Text
  pub log_file_worker : Text

-- The defaults of the fields.
abbrev pub default_settings : Settings
default_settings = record {
  grpc_host = codes "0.0.0.0";
  grpc_port = pos 50051;
  qdrant_host = codes "localhost";
  qdrant_port = pos 6333;
  qdrant_api_key = none;
  qdrant_collection_prefix = codes "doccontext";
  rabbitmq_host = codes "localhost";
  rabbitmq_port = pos 5672;
  rabbitmq_user = codes "guest";
  rabbitmq_password = codes "guest";
  rabbitmq_vhost = codes "/";
  rabbitmq_document_jobs_queue = codes "document_jobs";
  postgres_host = codes "localhost";
  postgres_port = pos 5432;
  postgres_user = codes "doccontext";
  postgres_password = codes "doccontext";
  postgres_db = codes "doccontext";
  embedding_provider = codes "minilm";
  vector_store_provider = codes "qdrant";
  queue_provider = codes "rabbitmq";
  chunk_size = pos 800;
  chunk_overlap = pos 160;
  openrouter_api_key = codes "";
  openrouter_base_url = codes "https://openrouter.ai/api/v1";
  llm_router_model = codes "openai/gpt-5-mini";
  llm_answer_model = codes "openai/gpt-5-mini";
  query_top_k_default = pos 5;
  max_concurrent_queries = pos 10;
  log_level = codes "INFO";
  log_dir = codes "./logs";
  log_file_index_document = codes "./logs/index_document.log";
  log_file_get_indexing_job_status = codes "./logs/get_indexing_job_status.log";
  log_file_query_documents = codes "./logs/query_documents.log";
  log_file_delete_document = codes "./logs/delete_document.log";
  log_file_worker = codes "./logs/document_worker.log";
}

-- `vhost` in `rabbitmq_url`
unfoldable pub with_slash : Text → Text
with_slash vhost = if starts_with vhost (codes "/") then vhost else codes "/" ++ vhost

module _ (R : Runtime) where
  abbrev pub port_text : ℤ → Text
  port_text port = R.repr (int port)

  -- `postgres_dsn`
  unfoldable pub postgres_dsn : Settings → Text
  postgres_dsn s =
      codes "postgresql+asyncpg://"
      ++ s.postgres_user
      ++ codes ":"
      ++ s.postgres_password
      ++ codes "@"
      ++ s.postgres_host
      ++ codes ":"
      ++ port_text s.postgres_port
      ++ codes "/"
      ++ s.postgres_db

  -- `rabbitmq_url`
  unfoldable pub rabbitmq_url : Settings → Text
  unfolding with_slash
  rabbitmq_url s =
      codes "amqp://"
      ++ s.rabbitmq_user
      ++ codes ":"
      ++ s.rabbitmq_password
      ++ codes "@"
      ++ s.rabbitmq_host
      ++ codes ":"
      ++ port_text s.rabbitmq_port
      ++ with_slash s.rabbitmq_vhost

  -- `qdrant_url`
  unfoldable pub qdrant_url : Settings → Text
  qdrant_url s = codes "http://" ++ s.qdrant_host ++ codes ":" ++ port_text s.qdrant_port

-- The environment, and what `lru_cache` keeps of `get_settings`. The constructor `Settings()` reads
-- the environment, and may refuse it.
pub record SettingsCache (E : Type 0) : Type 0 where
  pub environment : E
  pub cached : Option Settings

module _ {E : Type 0} (read_settings : E → Result Settings) where
  abbrev pub remember : SettingsCache E → Result Settings → Result Settings × SettingsCache E
  remember c (ok s) = (ok s, record c { cached = some s })
  remember c (raise e) = (raise e, c)

  -- `get_settings`
  unfoldable pub get_settings : Exec (SettingsCache E) Settings
  get_settings c = elim c.cached [
    | some s ↦ (ok s, c)
    | none ↦ remember c (read_settings c.environment)
  ]

  -- `reload_settings`
  unfoldable pub reload_settings : Exec (SettingsCache E) Settings
  unfolding get_settings
  reload_settings c = get_settings (record c { cached = none })
