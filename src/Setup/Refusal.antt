-- ===== src/Setup/Refusal.antt =====
-- worker.py and server.py: the settings with which `main` and `serve` run.
use mathlib.Core.Path.{subst}
use doccontext.Base.{◌≡◌, refl, ap, Bool, true, false, ◌&&◌, [], ◌∷◌, arith}
use doccontext.Base.{Text, codes, same, inl, inr}
use doccontext.Base.Exn.{Exn, Result, ok, raise, Result-cases}
use doccontext.Base.Exec.{Exec, lift, ◌>>=◌, always, ran, proceed-Ran}
use doccontext.Base.Dict.{Dict}
use doccontext.Base.Runtime.{Runtime}
use doccontext.Setup.Config.{Settings, SettingsCache, get_settings}
use doccontext.Setup.Embeddings.{SentenceTransformer}
use doccontext.Setup.Factories.{
  default_chunker, get_embedder, get_queue_consumer, get_queue_publisher, get_vector_store,
}
use doccontext.Setup.Defaults.{is_chunkable}
use doccontext.Setup.Process.{in_models, in_host, create_engine, begin}
use doccontext.Setup.Server.{ServerHost, ServerProcess, Built, build_parts, serve}
use doccontext.Setup.Worker.{
  WorkerHost, WorkerProcess, bootstrap_schema, run_worker, shut_down, run_main, main,
}
use doccontext.Logging.Setup.{LogSystem, log_worker, log_index_document}
use doccontext.Setup.Supported.{
  get_queue_consumer-ok, get_queue_publisher-ok, get_vector_store-ok, default_chunker-ok,
  begin-settings,
}

-- The providers of the queue and of the vector store are implemented, and the chunker takes the
-- size and the overlap.
abbrev pub is_supported : Settings → Bool
is_supported s =
    same s.queue_provider (codes "rabbitmq")
    && same s.vector_store_provider (codes "qdrant")
    && is_chunkable s.chunk_size s.chunk_overlap

module _ (R : Runtime) (F : LogSystem) (H : WorkerHost R) {E S : Type 0}
    (read_settings : E → Result Settings) (load_model : Exec S (SentenceTransformer R.Float)) where
  abbrev P : Type 0
  P = WorkerProcess R F H read_settings load_model

  lift-ok : {A : Type 0} (r : Result A) (a : A) (p q : P) → lift r p ≡ (ok a, q) → r ≡ ok a
  lift-ok r a p q h = ap (λ x. x.0) h

  -- The end of `main`, from the embedder on.
  abbrev wired : Settings → H.Engine → H.Consumer → H.Store → Exec P (Unit {0})
  wired s engine consumer store = do
    embedder ← in_models (get_embedder R load_model s)
    chunker ← lift (default_chunker s)
    always (run_worker R F H read_settings load_model s consumer engine store embedder chunker)
        (shut_down R F H read_settings load_model consumer engine)

  wired-chunkable :
      (s : Settings) (engine : H.Engine) (consumer : H.Consumer) (store : H.Store) (p q : P)
      (u : Unit {0})
      → wired s engine consumer store p ≡ (ok u, q)
      → is_chunkable s.chunk_size s.chunk_overlap ≡ true
  wired-chunkable s engine consumer store p q u h =
      elim (proceed-Ran _ (in_models (get_embedder R load_model s) p) u q h) [
        | ran embedder p₁ e1 h1 ↦ elim (proceed-Ran _ (lift (default_chunker s) p₁) u q h1) [
          | ran chunker p₂ e2 h2 ↦
              default_chunker-ok s chunker (lift-ok (default_chunker s) chunker p₁ p₂ e2)
        ]
      ]

  run_main-supported :
      (s : Settings) (p q : P) (u : Unit {0})
      → run_main R F H read_settings load_model s p ≡ (ok u, q)
      → is_supported s ≡ true
  unfolding run_main
  run_main-supported s p q u h =
      elim (proceed-Ran _ (in_host (create_engine R H.create_async_engine s) p) u q h) [
        | ran engine p₁ e1 h1 ↦
            elim (proceed-Ran _ (bootstrap_schema R F H read_settings load_model engine p₁) u q
              h1) [
                | ran v p₂ e2 h2 ↦
                    elim (proceed-Ran _ (lift (get_queue_consumer R H.new_consumer s) p₂) u q h2) [
                      | ran consumer p₃ e3 h3 ↦
                          elim (proceed-Ran _ (lift (get_vector_store R H.open_store s) p₃) u q
                            h3) [
                              | ran store p₄ e4 h4 ↦
                                  let queue = get_queue_consumer-ok R H.new_consumer s consumer (
                                    lift-ok (get_queue_consumer R H.new_consumer s) consumer p₂ p₃
                                      e3) in
                                  let vectors =
                                    get_vector_store-ok R H.open_store s store (
                                      lift-ok (get_vector_store R H.open_store s) store p₃ p₄ e4) in
                                  let chunks = wired-chunkable s engine consumer store p₄ q u h4 in
                                  rw (queue, vectors, chunks) refl
                            ]
                    ]
              ]
      ]

  main-supported :
      (p q : P) (u : Unit {0}) (s : Settings) (c' : SettingsCache E)
      → get_settings read_settings p.settings ≡ (ok s, c')
      → main R F H read_settings load_model p ≡ (ok u, q)
      → is_supported s ≡ true
  unfolding main
  main-supported p q u s c' read h =
      elim (proceed-Ran _ (begin R F read_settings log_worker [] p) u q h) [
        | ran second p₁ e1 h1 ↦
            let equal = begin-settings R F read_settings log_worker [] p p₁ second s c' read e1 in
            subst (λ t. is_supported t ≡ true) equal (run_main-supported second p₁ q u h1)
      ]

  -- `main` raises whenever the settings that `get_settings` returns name a provider of the queue or
  -- of the vector store that is not implemented, or a chunk size that is not positive, or an overlap
  -- that is negative or not below the size; whatever the libraries do.
  pub main_unsupported :
      (p : P) (s : Settings) (c' : SettingsCache E)
      → get_settings read_settings p.settings ≡ (ok s, c')
      → is_supported s ≡ false
      → (e : Exn) × ((main R F H read_settings load_model p).0 ≡ raise e)
  main_unsupported p s c' read bad = elim (Result-cases (main R F H read_settings load_model p).0) [
    | inr (e, raised) ↦ (e, raised)
    | inl (u, returned) ↦
        let whole = (main R F H read_settings load_model p).1 in
        let held = main-supported p whole u s c' read (ap (λ r. (r, whole)) returned) in
        absurd (ground arith)
  ]

module _ (R : Runtime) (F : LogSystem) (H : ServerHost R) {E S : Type 0}
    (read_settings : E → Result Settings) (load_model : Exec S (SentenceTransformer R.Float)) where
  abbrev Q : Type 0
  Q = ServerProcess R F H read_settings load_model

  build_parts-supported :
      (s : Settings) (p q : Q) (b : Built R F H read_settings load_model)
      → build_parts R F H read_settings load_model s p ≡ (ok b, q)
      → (same s.queue_provider (codes "rabbitmq") ≡ true)
        × (same s.vector_store_provider (codes "qdrant") ≡ true)
  unfolding build_parts
  build_parts-supported s p q b h =
      elim (proceed-Ran _ (in_host (create_engine R H.create_async_engine s) p) b q h) [
        | ran engine p₁ e1 h1 ↦ elim (proceed-Ran _ (in_host (H.create_all engine) p₁) b q h1) [
          | ran v p₂ e2 h2 ↦
              elim (proceed-Ran _ (lift (get_queue_publisher R H.new_publisher s) p₂) b q h2) [
                | ran publisher p₃ e3 h3 ↦
                    elim (proceed-Ran _ (in_models (get_embedder R load_model s) p₃) b q h3) [
                      | ran embedder p₄ e4 h4 ↦
                          elim (proceed-Ran _ (lift (get_vector_store R H.open_store s) p₄) b q
                            h4) [
                              | ran store p₅ e5 h5 ↦ (
                                get_queue_publisher-ok R H.new_publisher s publisher
                                    (ap (λ x. x.0) e3),
                                get_vector_store-ok R H.open_store s store (ap (λ x. x.0) e5),
                              )
                            ]
                    ]
              ]
        ]
      ]

  -- `serve` raises whenever the settings name a provider of the queue or of the vector store that is
  -- not implemented, whatever the libraries do.
  pub serve_unsupported :
      (p : Q) (s : Settings) (c' : SettingsCache E)
      → get_settings read_settings p.settings ≡ (ok s, c')
      → (same s.queue_provider (codes "rabbitmq") && same s.vector_store_provider (codes "qdrant"))
        ≡ false
      → (e : Exn) × ((serve R F H read_settings load_model p).0 ≡ raise e)
  unfolding serve
  serve_unsupported p s c' read bad =
      elim (Result-cases (serve R F H read_settings load_model p).0) [
        | inr (e, raised) ↦ (e, raised)
        | inl (u, returned) ↦
            let bound : Dict Text = (codes "component", codes "server") ∷ [] in
            let whole = (serve R F H read_settings load_model p).1 in
            elim (proceed-Ran _ (begin R F read_settings log_index_document bound p) u whole
              (ap (λ r. (r, whole)) returned)) [
                | ran second p₁ e1 h1 ↦
                    let equal =
                      begin-settings R F read_settings log_index_document bound p p₁ second s c'
                        read e1 in
                    elim (proceed-Ran _ (build_parts R F H read_settings load_model second p₁) u
                      whole h1) [
                        | ran parts p₂ e2 h2 ↦
                            let (queue, store) = build_parts-supported second p₁ p₂ parts e2 in
                            absurd (ground (arith, equal))
                      ]
              ]
      ]
