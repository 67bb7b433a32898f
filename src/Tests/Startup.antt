-- ===== src/Tests/Startup.antt =====
-- The settings, the chunker and the log files.
use doccontext.Base.{ℕ, some, ◌≡◌, refl, true, false, none, List, [], ◌∷◌, ◌⊎◌, Text, codes, same}
use doccontext.Base.Exn.{Exn, Result, ok, raise}
use doccontext.Base.Exec.{Exec}
use doccontext.Chunking.Defs.{RecursiveCharacterChunker, chunk}
use doccontext.Chunking.Cover.{ReturnsCover}
use doccontext.Base.Int.{pos}
use doccontext.Setup.Config.{default_settings}
use doccontext.Setup.Config.{Settings, get_settings}
use doccontext.Setup.Embeddings.{SentenceTransformer}
use doccontext.Setup.Worker.{WorkerHost, WorkerProcess, main}
use doccontext.Setup.Refusal.{main_unsupported}
use doccontext.Setup.Factories.{default_chunker}
use doccontext.Setup.Defaults.{is_chunkable, IsRefused, default_chunker_cases}
use doccontext.Logging.Setup.{
  Logger, LogSystem, LogWorld, configure_logging, configure_channels, configure_channel,
  file_handler,
}
use doccontext.Logging.Channels.{configure_calls}
use doccontext.Logging.Files.{AllDiffer, logger_files, AreConfigured, configure_calls-AreConfigured}
use doccontext.Tests.Samples.{sample_runtime, sample_text}

default_chunker_cases_example :
    ((is_chunkable (pos 800) (pos 160) ≡ false) × IsRefused (default_chunker default_settings))
    ⊎ ((c : RecursiveCharacterChunker) × (is_chunkable (pos 800) (pos 160) ≡ true)
        × (default_chunker default_settings ≡ ok c)
        × (pos 800 ≡ pos c.chunk_size)
        × (pos 160 ≡ pos c.chunk_overlap)
        × ReturnsCover c sample_text (chunk c sample_text))
default_chunker_cases_example = default_chunker_cases default_settings sample_text

-- A file system that takes every file, and keeps the paths.
abbrev log_system : LogSystem
log_system = record {
  State = List Text;
  parent = λ path. codes "logs";
  make_dir = λ path s. (ok tt, s);
  open_file = λ path s. (ok tt, path ∷ s);
  level_of_name = λ name. none;
  info = 20;
}

-- Every logger has one handler of the host program.
abbrev host_logger : Logger
host_logger = record {
  level = 30;
  propagate = true;
  handlers = record { own = false; path = codes "host.log"; level = 10 } ∷ [];
}

abbrev log_world : LogWorld sample_runtime log_system
log_world = record {
  loggers = λ name. host_logger;
  bound_level = none;
  configured = false;
  files = [];
}

abbrev log_world_after : LogWorld sample_runtime log_system
log_world_after =
    (configure_calls sample_runtime log_system default_settings (default_settings ∷ []) log_world).1

no_channel : AllDiffer (codes "uvicorn") (logger_files default_settings)
unfolding same
no_channel = (refl, (refl, (refl, (refl, (refl, tt)))))

both_configured :
    configure_calls sample_runtime log_system default_settings (default_settings ∷ []) log_world
    ≡ (ok tt, log_world_after)
unfolding configure_logging configure_channels configure_channel file_handler
both_configured = refl

configure_calls-AreConfigured_example :
    AreConfigured sample_runtime log_system default_settings log_world log_world_after
      (logger_files default_settings)
    × (log_world_after.loggers (codes "uvicorn") ≡ host_logger)
configure_calls-AreConfigured_example =
    configure_calls-AreConfigured sample_runtime log_system default_settings (default_settings ∷ [])
      log_world log_world_after (codes "uvicorn") no_channel both_configured

-- A host on which everything returns.
abbrev quiet_host : WorkerHost sample_runtime
quiet_host = record {
  State = ℕ;
  Engine = Unit {0};
  Store = Unit {0};
  Consumer = Unit {0};
  create_async_engine = λ url h. (ok tt, h);
  create_all = λ engine h. (ok tt, h);
  dispose = λ engine h. (ok tt, h);
  open_store = λ s. ok tt;
  new_consumer = λ s. tt;
  consume = λ consumer engine store embedder chunker queue n h. (ok tt, h);
  close = λ consumer h. (ok tt, h);
}

abbrev wide_overlap : Settings
wide_overlap = record default_settings { chunk_overlap = pos 800 }

abbrev read_wide : Text → Result Settings
read_wide environment = ok wide_overlap

abbrev one_model : Exec ℕ (SentenceTransformer ℕ)
one_model n = (ok (record { encode = λ texts. ok [] }), n)

abbrev process : WorkerProcess sample_runtime log_system quiet_host read_wide one_model
process = record {
  settings = record { environment = []; cached = none };
  logs = log_world;
  models = record { built = []; world = 0 };
  host = 0;
}

main_unsupported_example :
    (e : Exn) × ((main sample_runtime log_system quiet_host read_wide one_model process).0
      ≡ raise e)
unfolding get_settings same
main_unsupported_example =
    main_unsupported sample_runtime log_system quiet_host read_wide one_model process wide_overlap
      (record { environment = []; cached = some wide_overlap }) refl refl
