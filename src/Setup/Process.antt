-- ===== src/Setup/Process.antt =====
-- The state of a process of server.py and worker.py, and the engine of repositories/job.py.
use doccontext.Base.{Text}
use doccontext.Base.Exn.{Result}
use doccontext.Base.Exec.{Exec, ◌>>=◌, ◌>>◌, focus}
use doccontext.Base.Dict.{Dict}
use doccontext.Base.Runtime.{Runtime}
use doccontext.Setup.Config.{Settings, SettingsCache, get_settings, postgres_dsn}
use doccontext.Setup.Factories.{Models}
use doccontext.Logging.Setup.{LogSystem, LogWorld, LogChannel, configure_logging, get_logger}

-- The caches of the settings and of the embedders, the loggers, and the state of the libraries.
pub record Process (R : Runtime) (F : LogSystem) (E S T : Type 0) : Type 0 where
  pub settings : SettingsCache E
  pub logs : LogWorld R F
  pub models : Models R S
  pub host : T

module _ {R : Runtime} {F : LogSystem} {E S T : Type 0} where
  abbrev pub in_settings : {A : Type 0} → Exec (SettingsCache E) A → Exec (Process R F E S T) A
  in_settings = focus (λ p. p.settings) (λ p settings. record p { settings = settings })

  abbrev pub in_logs : {A : Type 0} → Exec (LogWorld R F) A → Exec (Process R F E S T) A
  in_logs = focus (λ p. p.logs) (λ p logs. record p { logs = logs })

  abbrev pub in_models : {A : Type 0} → Exec (Models R S) A → Exec (Process R F E S T) A
  in_models = focus (λ p. p.models) (λ p models. record p { models = models })

  abbrev pub in_host : {A : Type 0} → Exec T A → Exec (Process R F E S T) A
  in_host = focus (λ p. p.host) (λ p host. record p { host = host })

-- `create_engine`
unfoldable pub create_engine :
    (R : Runtime) {T Engine : Type 0} → (Text → Exec T Engine) → Settings → Exec T Engine
create_engine R create_async_engine s = create_async_engine (postgres_dsn R s)

-- The first statements of `serve` and of `main`; `configure_logging()` calls `get_settings()` as
-- well.
unfoldable pub begin :
    (R : Runtime) (F : LogSystem) {E S T : Type 0}
    → (E → Result Settings)
    → LogChannel
    → Dict Text
    → Exec (Process R F E S T) Settings
begin R F read_settings channel bound = do
  log_settings ← in_settings (get_settings read_settings)
  in_logs (configure_logging R F log_settings)
  log ← in_logs (get_logger R F log_settings channel bound)
  in_settings (get_settings read_settings)
