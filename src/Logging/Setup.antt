-- ===== src/Logging/Setup.antt =====
-- logging_config.py, over any file system. A `Path` is its text; the processors of structlog are
-- left out but for `_rename_timestamp_to_created_at`.
use doccontext.Base.{
  ℕ, Bool, true, false, Option, none, some, List, [], ◌∷◌, ◌++◌, Text, codes, same, if◌then◌else◌,
}
use doccontext.Base.Exn.{ok}
use doccontext.Base.Exec.{Exec, pure, ◌>>=◌, ◌>>◌, focus}
use doccontext.Base.Dict.{Dict, lookup, update}
use doccontext.Base.Runtime.{Runtime}
use doccontext.Setup.Config.{Settings}

-- `LogChannel`
pub data LogChannel : Type 0 where
  log_index_document log_get_indexing_job_status log_query_documents log_delete_document
        log_worker :
      LogChannel

-- `channel.value`
abbrev pub channel_value : LogChannel → Text
channel_value log_index_document = codes "index_document"
channel_value log_get_indexing_job_status = codes "get_indexing_job_status"
channel_value log_query_documents = codes "query_documents"
channel_value log_delete_document = codes "delete_document"
channel_value log_worker = codes "document_worker"

-- `getattr(s, _CHANNEL_TO_SETTING[channel])`
abbrev pub log_file_of : Settings → LogChannel → Text
log_file_of s log_index_document = s.log_file_index_document
log_file_of s log_get_indexing_job_status = s.log_file_get_indexing_job_status
log_file_of s log_query_documents = s.log_file_query_documents
log_file_of s log_delete_document = s.log_file_delete_document
log_file_of s log_worker = s.log_file_worker

-- The keys of `_CHANNEL_TO_SETTING`, in their order.
abbrev pub channels : List LogChannel
channels =
    log_index_document ∷ log_get_indexing_job_status ∷ log_query_documents ∷ log_delete_document
    ∷ log_worker ∷ []

-- `channel_logger_name`
unfoldable pub channel_logger_name : LogChannel → Text
channel_logger_name channel = codes "doccontext.channels" ++ codes "." ++ channel_value channel

-- `event_dict.pop(key)`, without the value
unfoldable pub pop : {V : Type 0} → Text → Dict V → Dict V
pop key [] = []
pop key ((k, v) ∷ d) = if same k key then d else (k, v) ∷ pop key d

-- `_rename_timestamp_to_created_at`
unfoldable pub rename_timestamp_to_created_at : {V : Type 0} → Dict V → Dict V
rename_timestamp_to_created_at d = elim (lookup (codes "timestamp") d) [
  | none ↦ d
  | some v ↦ update (codes "createdAt") (λ _. v) (pop (codes "timestamp") d)
]

-- A handler of a logger; `own` is the attribute `_doccontext_channel`.
pub record Handler : Type 0 where
  pub own : Bool
  pub path : Text
  pub level : ℕ

-- `logging.Logger`
pub record Logger : Type 0 where
  pub level : ℕ
  pub propagate : Bool
  pub handlers : List Handler

-- The handlers that stay when those of an earlier `configure_logging` are removed.
unfoldable pub foreign : List Handler → List Handler
foreign [] = []
foreign (h ∷ handlers) = if h.own then foreign handlers else h ∷ foreign handlers

-- The file system and `logging`: `path.parent`, `mkdir(parents=True, exist_ok=True)`, the opening of
-- a file by `FileHandler`, `getLevelNamesMapping()` and `INFO`.
pub record LogSystem : Type 1 where
  pub State : Type 0
  pub parent : Text → Text
  pub make_dir : Text → Exec State (Unit {0})
  pub open_file : Text → Exec State (Unit {0})
  pub level_of_name : Text → Option ℕ
  pub info : ℕ

module _ (R : Runtime) (F : LogSystem) where
  -- The loggers by name, the level that structlog filters by, `_configured`, and the file system.
  pub record LogWorld : Type 0 where
    pub loggers : Text → Logger
    pub bound_level : Option ℕ
    pub configured : Bool
    pub files : F.State

  abbrev pub in_files : {A : Type 0} → Exec F.State A → Exec LogWorld A
  in_files = focus (λ w. w.files) (λ w files. record w { files = files })

  -- `_file_handler`
  unfoldable pub file_handler : Text → ℕ → Exec LogWorld Handler
  file_handler path level = do
    in_files (F.make_dir (F.parent path))
    in_files (F.open_file path)
    pure (record { own = true; path = path; level = level })

  -- A change of the logger with the name.
  abbrev pub on_logger : Text → (Logger → Logger) → Exec LogWorld (Unit {0})
  on_logger name change w =
      (ok tt, record w { loggers = λ n. if same name n then change (w.loggers n) else w.loggers n })

  -- The body of the loop of `configure_logging`.
  unfoldable pub configure_channel : ℕ → Text → LogChannel → Exec LogWorld (Unit {0})
  configure_channel level path channel = do
    on_logger (channel_logger_name channel)
        (λ l. record { level = level; propagate = false; handlers = foreign l.handlers })
    handler ← file_handler path level
    on_logger (channel_logger_name channel)
        (λ l. record l { handlers = l.handlers ++ handler ∷ [] })

  -- The loop.
  unfoldable pub configure_channels : ℕ → Settings → List LogChannel → Exec LogWorld (Unit {0})
  configure_channels level s [] w = (ok tt, w)
  configure_channels level s (channel ∷ rest) w =
      (do configure_channel level (log_file_of s channel) channel; configure_channels level s rest)
        w

  -- `level`
  abbrev pub level_of : Settings → ℕ
  level_of s = elim (F.level_of_name (R.upper s.log_level)) [ none ↦ F.info | some level ↦ level ]

  abbrev pub finish : ℕ → Exec LogWorld (Unit {0})
  finish level w = (ok tt, record w { bound_level = some level; configured = true })

  -- `configure_logging`
  unfoldable pub configure_logging : Settings → Exec LogWorld (Unit {0})
  configure_logging s = do
    in_files (F.make_dir s.log_dir)
    configure_channels (level_of s) s channels
    finish (level_of s)

  -- The logger of structlog that `get_logger` returns: its name and what is bound to it.
  pub record BoundLogger : Type 0 where
    pub name : Text
    pub bound : Dict Text

  -- `get_logger`, where `s` is what `get_settings()` returns; texts are bound, under
  -- other keys than `channel`.
  unfoldable pub get_logger : Settings → LogChannel → Dict Text → Exec LogWorld BoundLogger
  get_logger s channel bound w =
      (do
        (if w.configured then pure tt else configure_logging s)
        pure (record {
          name = channel_logger_name channel;
          bound = (codes "channel", channel_value channel) ∷ bound;
        }))
        w
