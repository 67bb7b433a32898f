-- ===== src/Setup/Server.antt =====
-- server.py: `serve`, over the libraries that it calls. The log lines are left out.
use doccontext.Base.{[], ◌∷◌, ◌++◌, false, Text, codes}
use doccontext.Base.Exn.{Result, ok}
use doccontext.Base.Exec.{Exec, lift, ◌>>=◌, ◌>>◌}
use doccontext.Base.Runtime.{Runtime}
use doccontext.Stores.Interface.{Embedder}
use doccontext.Llm.OpenRouter.{OpenRouterClient, open_router_client}
use doccontext.Logging.Setup.{LogSystem, log_index_document}
use doccontext.Setup.Config.{Settings, port_text}
use doccontext.Setup.Process.{Process, in_models, in_host, create_engine, begin}
use doccontext.Setup.Embeddings.{SentenceTransformer}
use doccontext.Setup.Factories.{get_embedder, get_queue_publisher, get_vector_store}

-- What `serve` calls of the libraries: SQLAlchemy's engines, the constructors of the store and of
-- the publisher and its `close`, `aclose` of the language model's client, the gRPC server, and the
-- signal that `stop.wait()` waits for.
pub record ServerHost (R : Runtime) : Type 1 where
  pub State : Type 0
  pub Engine : Type 0
  pub Store : Type 0
  pub Publisher : Type 0
  pub Server : Type 0
  pub create_async_engine : Text → Exec State Engine
  pub create_all : Engine → Exec State (Unit {0})
  pub dispose : Engine → Exec State (Unit {0})
  pub open_store : Settings → Result Store
  pub new_publisher : Settings → Publisher
  pub close_publisher : Publisher → Exec State (Unit {0})
  pub aclose : OpenRouterClient → Exec State (Unit {0})
  -- `grpc.aio.server()` with a servicer of the four handlers, made of these parts
  pub new_server :
      Engine
      → Publisher
      → Store
      → Embedder R.Float
      → OpenRouterClient
      → Settings
      → Exec State Server
  pub add_insecure_port : Server → Text → Exec State (Unit {0})
  pub start : Server → Exec State (Unit {0})
  pub wait_for_stop : Exec State (Unit {0})
  pub stop : Server → Exec State (Unit {0})

-- `listen`
unfoldable pub listen_address : Runtime → Settings → Text
listen_address R s = s.grpc_host ++ codes ":" ++ port_text R s.grpc_port

module _ (R : Runtime) (F : LogSystem) (H : ServerHost R) {E S : Type 0}
    (read_settings : E → Result Settings) (load_model : Exec S (SentenceTransformer R.Float)) where
  abbrev pub ServerProcess : Type 0
  ServerProcess = Process R F E S H.State

  -- The parts that `serve` builds, in its order.
  pub record Built : Type 0 where
    pub engine : H.Engine
    pub publisher : H.Publisher
    pub embedder : Embedder R.Float
    pub store : H.Store
    pub llm : OpenRouterClient

  unfoldable pub build_parts : Settings → Exec ServerProcess Built
  build_parts s = do
    engine ← in_host (create_engine R H.create_async_engine s)
    in_host (H.create_all engine)
    publisher ← lift (get_queue_publisher R H.new_publisher s)
    embedder ← in_models (get_embedder R load_model s)
    store ← lift (get_vector_store R H.open_store s)
    lift (
        ok (record {
          engine = engine;
          publisher = publisher;
          embedder = embedder;
          store = store;
          llm = open_router_client s false;
        }))

  -- From the server to the signal.
  unfoldable pub run_server : Settings → Built → Exec ServerProcess H.Server
  run_server s b = do
    server ← in_host (H.new_server b.engine b.publisher b.store b.embedder b.llm s)
    in_host (H.add_insecure_port server (listen_address R s))
    in_host (H.start server)
    in_host H.wait_for_stop
    lift (ok server)

  -- From the signal on.
  unfoldable pub stop_server : Built → H.Server → Exec ServerProcess (Unit {0})
  stop_server b server = do
    in_host (H.stop server)
    in_host (H.close_publisher b.publisher)
    in_host (H.aclose b.llm)
    in_host (H.dispose b.engine)

  -- `serve`
  unfoldable pub serve : Exec ServerProcess (Unit {0})
  serve = do
    s ← begin R F read_settings log_index_document ((codes "component", codes "server") ∷ [])
    parts ← build_parts s
    server ← run_server s parts
    stop_server parts server
