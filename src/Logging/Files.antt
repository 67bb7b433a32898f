-- ===== src/Logging/Files.antt =====
-- logging_config.py: the names, files and levels of the loggers, value by value.
use mathlib.Core.Path.{subst}
use doccontext.Base.{ℕ, ◌≡◌, refl, sym, Bool, true, false, Option, none, some, List, [], ◌∷◌, ◌++◌}
use doccontext.Base.{Text, codes, same, inl, inr, Bool-cases, if◌then◌else◌}
use doccontext.Base.Exn.{ok}
use doccontext.Base.Runtime.{Runtime}
use doccontext.Setup.Config.{Settings}
use doccontext.Logging.Setup.{
  LogChannel, log_index_document, log_get_indexing_job_status, log_query_documents,
  log_delete_document, log_worker, channel_logger_name, Handler, Logger, LogSystem, LogWorld,
  foreign, level_of, log_file_of,
}
use doccontext.Logging.Channels.{
  configured_logger, configure_calls, last_settings, configure_calls-configured,
}

-- The names of the loggers and their files.
abbrev pub logger_files : Settings → List (Text × Text)
logger_files s =
    (codes "doccontext.channels.index_document", s.log_file_index_document)
    ∷ (codes "doccontext.channels.get_indexing_job_status", s.log_file_get_indexing_job_status)
    ∷ (codes "doccontext.channels.query_documents", s.log_file_query_documents)
    ∷ (codes "doccontext.channels.delete_document", s.log_file_delete_document)
    ∷ (codes "doccontext.channels.document_worker", s.log_file_worker)
    ∷ []

-- The name is none of those.
abbrev pub AllDiffer : Text → List (Text × Text) → Type 0
AllDiffer name [] = Unit
AllDiffer name ((other, path) ∷ files) = (same other name ≡ false) × AllDiffer name files

no_channel :
    (s : Settings) (name : Text) (channel : LogChannel)
    → AllDiffer name (logger_files s)
    → same (channel_logger_name channel) name ≡ false
unfolding channel_logger_name
no_channel s name log_index_document h = h.0
no_channel s name log_get_indexing_job_status h = h.1.0
no_channel s name log_query_documents h = h.1.1.0
no_channel s name log_delete_document h = h.1.1.1.0
no_channel s name log_worker h = h.1.1.1.1.0

-- `kept` are the handlers that `configure_logging` did not make, in their order.
pub data KeepsOthers : List Handler → List Handler → Type 0 where
  none_left : KeepsOthers [] []
  own_gone :
      (h : Handler) (handlers kept : List Handler)
      → h.own ≡ true
      → KeepsOthers handlers kept
      → KeepsOthers (h ∷ handlers) kept
  other_kept :
      (h : Handler) (handlers kept : List Handler)
      → h.own ≡ false
      → KeepsOthers handlers kept
      → KeepsOthers (h ∷ handlers) (h ∷ kept)

foreign-KeepsOthers : (handlers : List Handler) → KeepsOthers handlers (foreign handlers)
unfolding foreign
foreign-KeepsOthers [] = none_left
foreign-KeepsOthers (h ∷ handlers) =
    let rest = foreign-KeepsOthers handlers in
    let left : Bool → List Handler =
      λ own. if own then foreign handlers else h ∷ foreign handlers in
    elim (Bool-cases h.own) [
      | inl own ↦
          subst (λ b. KeepsOthers (h ∷ handlers) (left b)) (sym own)
            (own_gone h handlers (foreign handlers) own rest)
      | inr other ↦
          subst (λ b. KeepsOthers (h ∷ handlers) (left b)) (sym other)
            (other_kept h handlers (foreign handlers) other rest)
    ]

module _ (R : Runtime) (F : LogSystem) where
  -- The level of the settings, or INFO if there is none of that name.
  pub data IsLevel (s : Settings) (level : ℕ) : Type 0 where
    named : F.level_of_name (R.upper s.log_level) ≡ some level → IsLevel s level
    unnamed : F.level_of_name (R.upper s.log_level) ≡ none → level ≡ F.info → IsLevel s level

  found-IsLevel :
      (s : Settings) (found : Option ℕ)
      → F.level_of_name (R.upper s.log_level) ≡ found
      → IsLevel s (elim found [ none ↦ F.info | some level ↦ level ])
  found-IsLevel s none e = unnamed e refl
  found-IsLevel s (some level) e = named e

  level_of-IsLevel : (s : Settings) → IsLevel s (level_of R F s)
  level_of-IsLevel s = found-IsLevel s (F.level_of_name (R.upper s.log_level)) refl

  -- What becomes of the logger of a channel.
  abbrev pub IsConfigured : Settings → Text → Logger → Logger → Type 0
  IsConfigured s path before after =
      (level : ℕ) × (kept : List Handler) × IsLevel s level
      × KeepsOthers before.handlers kept
      × (after ≡ record {
        level = level;
        propagate = false;
        handlers = kept ++ record { own = true; path = path; level = level } ∷ [];
      })

  abbrev pub AreConfigured : Settings → LogWorld R F → LogWorld R F → List (Text × Text) → Type 0
  AreConfigured s w w' [] = Unit
  AreConfigured s w w' ((name, path) ∷ files) =
      IsConfigured s path (w.loggers name) (w'.loggers name) × AreConfigured s w w' files

  configured_logger-IsConfigured :
      (s : Settings) (channel : LogChannel) (before after : Logger)
      → after ≡ configured_logger R F s channel before
      → IsConfigured s (log_file_of s channel) before after
  configured_logger-IsConfigured s channel before after e = (
    level_of R F s,
    foreign before.handlers,
    level_of-IsLevel s,
    foreign-KeepsOthers before.handlers,
    e,
  )

  -- However often `configure_logging` has been called, if all the calls returned, the logger of
  -- each of the five channels, under its name, has the level of the last settings, which is INFO if
  -- they name no level, passes nothing on, and has the handlers that `configure_logging` did not
  -- make, in their order, and behind them one of its own, with that level, for the channel's file
  -- in the last settings. And a logger of any other name is as it was.
  pub configure_calls-AreConfigured :
      (s : Settings) (more : List Settings) (w w' : LogWorld R F) (name : Text)
      → AllDiffer name (logger_files s)
      → configure_calls R F s more w ≡ (ok tt, w')
      → AreConfigured (last_settings R F s more) w w' (logger_files (last_settings R F s more))
        × (w'.loggers name ≡ w.loggers name)
  unfolding channel_logger_name
  configure_calls-AreConfigured s more w w' name other e =
      let last = last_settings R F s more in
      let others : (k : LogChannel) → same (channel_logger_name k) name ≡ false =
        λ k. no_channel s name k other in
      let configured : (channel : LogChannel)
          → IsConfigured last (log_file_of last channel) (w.loggers (channel_logger_name channel))
              (w'.loggers (channel_logger_name channel)) =
        λ channel.
          configured_logger-IsConfigured last channel (w.loggers (channel_logger_name channel))
            (w'.loggers (channel_logger_name channel))
            (configure_calls-configured R F s more w w' channel name others e).0 in
      (
        (
          configured log_index_document,
          (
            configured log_get_indexing_job_status,
            (
              configured log_query_documents,
              (configured log_delete_document, (configured log_worker, tt)),
            ),
          ),
        ),
        (configure_calls-configured R F s more w w' log_worker name others e).1,
      )
