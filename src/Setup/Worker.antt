-- ===== src/Setup/Worker.antt =====
-- worker.py: `main`, with `run_worker` of workers/document_worker.py and the engine of
-- repositories/job.py, over the libraries that they call. The log lines are left out.
use doccontext.Base.{ℕ, [], Text}
use doccontext.Base.Exn.{Result}
use doccontext.Base.Exec.{Exec, lift, ◌>>=◌, ◌>>◌, always}
use doccontext.Base.Runtime.{Runtime}
use doccontext.Chunking.Defs.{RecursiveCharacterChunker}
use doccontext.Stores.Interface.{Embedder}
use doccontext.Setup.Config.{Settings}
use doccontext.Setup.Process.{Process, in_models, in_host, create_engine, begin}
use doccontext.Setup.Embeddings.{SentenceTransformer}
use doccontext.Setup.Factories.{default_chunker, get_embedder, get_queue_consumer, get_vector_store}
use doccontext.Logging.Setup.{LogSystem, log_worker}

-- What `main` calls of the libraries: SQLAlchemy's engines, the constructors of the vector store and
-- of the consumer, the loop of the consumer, which the handler is passed to, and its `close`.
pub record WorkerHost (R : Runtime) : Type 1 where
  pub State : Type 0
  pub Engine : Type 0
  pub Store : Type 0
  pub Consumer : Type 0
  pub create_async_engine : Text → Exec State Engine
  pub create_all : Engine → Exec State (Unit {0})
  pub dispose : Engine → Exec State (Unit {0})
  pub open_store : Settings → Result Store
  pub new_consumer : Settings → Consumer
  -- the consumer, the parts of the worker, the queue, and `prefetch`
  pub consume :
      Consumer
      → Engine
      → Store
      → Embedder R.Float
      → RecursiveCharacterChunker
      → Text
      → ℕ
      → Exec State (Unit {0})
  pub close : Consumer → Exec State (Unit {0})

module _ (R : Runtime) (F : LogSystem) (H : WorkerHost R) {E S : Type 0}
    (read_settings : E → Result Settings) (load_model : Exec S (SentenceTransformer R.Float)) where
  abbrev pub WorkerProcess : Type 0
  WorkerProcess = Process R F E S H.State

  -- `bootstrap_schema`
  unfoldable pub bootstrap_schema : H.Engine → Exec WorkerProcess (Unit {0})
  bootstrap_schema engine = in_host (H.create_all engine)

  -- `run_worker`
  unfoldable pub run_worker :
      Settings
      → H.Consumer
      → H.Engine
      → H.Store
      → Embedder R.Float
      → RecursiveCharacterChunker
      → Exec WorkerProcess (Unit {0})
  run_worker s consumer engine store embedder chunker =
      in_host (H.consume consumer engine store embedder chunker s.rabbitmq_document_jobs_queue 1)

  -- The `finally` of `main`.
  unfoldable pub shut_down : H.Consumer → H.Engine → Exec WorkerProcess (Unit {0})
  shut_down consumer engine = do in_host (H.close consumer); in_host (H.dispose engine)

  -- `main` from `create_engine(settings)` on.
  unfoldable pub run_main : Settings → Exec WorkerProcess (Unit {0})
  run_main s = do
    engine ← in_host (create_engine R H.create_async_engine s)
    bootstrap_schema engine
    consumer ← lift (get_queue_consumer R H.new_consumer s)
    store ← lift (get_vector_store R H.open_store s)
    embedder ← in_models (get_embedder R load_model s)
    chunker ← lift (default_chunker s)
    always (run_worker s consumer engine store embedder chunker) (shut_down consumer engine)

  -- `main`
  unfoldable pub main : Exec WorkerProcess (Unit {0})
  main = do s ← begin R F read_settings log_worker []; run_main s
