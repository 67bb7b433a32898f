-- ===== src/Logging/Channels.antt =====
-- logging_config.py: the loggers of the channels after calls of `configure_logging`.
use doccontext.Base.{ℕ, ◌≡◌, refl, sym, ap, ◌∙◌, Bool, true, false, List, [], ◌∷◌, ◌++◌}
use doccontext.Base.{arith, Text, same, if◌then◌else◌}
use doccontext.Base.Exn.{ok}
use doccontext.Base.Exec.{Exec, proceed, ran, proceed-Ran, along-ok}
use doccontext.Base.Runtime.{Runtime}
use doccontext.Setup.Config.{Settings}
use doccontext.Logging.Setup.{
  LogChannel, log_index_document, log_get_indexing_job_status, log_query_documents,
  log_delete_document, log_worker, log_file_of, channels, channel_logger_name, Handler, Logger,
  LogSystem, LogWorld, in_files, foreign, file_handler, on_logger, configure_channel,
  configure_channels, level_of, configure_logging,
}

foreign-append :
    (handlers : List Handler) (h : Handler)
    → h.own ≡ true
    → foreign (handlers ++ h ∷ []) ≡ foreign handlers
unfolding foreign
foreign-append [] h own = rw own refl
foreign-append (k ∷ handlers) h own = ground (arith, foreign-append handlers h own)

foreign-foreign : (handlers : List Handler) → foreign (foreign handlers) ≡ foreign handlers
unfolding foreign
foreign-foreign [] = refl
foreign-foreign (h ∷ handlers) = ground (arith, foreign-foreign handlers)

module _ (R : Runtime) (F : LogSystem) where
  -- The logger of a channel: the handlers of others that it had, and one of its own.
  abbrev pub configured_logger : Settings → LogChannel → Logger → Logger
  configured_logger s channel l = record {
    level = level_of R F s;
    propagate = false;
    handlers =
        foreign l.handlers
        ++ record { own = true; path = log_file_of s channel; level = level_of R F s } ∷ [];
  }

  -- What the loop makes of the logger with the name.
  abbrev looped : Settings → List LogChannel → Text → Logger → Logger
  looped s [] name l = l
  looped s (channel ∷ rest) name l =
      looped s rest name
        (if same (channel_logger_name channel) name then configured_logger s channel l else l)

  file_handler-ok :
      (path : Text) (level : ℕ) (w w' : LogWorld R F) (h : Handler)
      → file_handler R F path level w ≡ (ok h, w')
      → (h ≡ record { own = true; path = path; level = level }) × (w'.loggers ≡ w.loggers)
  unfolding file_handler
  file_handler-ok path level w w' h e =
      elim (proceed-Ran _ (in_files R F (F.make_dir (F.parent path)) w) h w' e) [
        | ran u w₁ e1 h1 ↦ elim (proceed-Ran _ (in_files R F (F.open_file path) w₁) h w' h1) [
          | ran v w₂ e2 h2 ↦
              let made : Handler = record { own = true; path = path; level = level } in
              (
                along-ok (λ k x. k ≡ made) made h w₂ w' h2 refl,
                ap (λ x. x.1.loggers) (sym h2)
                    ∙ ap (λ x. x.1.loggers) (sym e2)
                    ∙ ap (λ x. x.1.loggers) (sym e1),
              )
        ]
      ]

  set_add :
      (s : Settings) (channel : LogChannel) (b : Bool) (l : Logger)
      → let level = level_of R F s in
        let set : Logger =
          if b
          then record { level = level; propagate = false; handlers = foreign l.handlers }
          else l in
        (if b
          then record set {
            handlers =
                set.handlers
                ++ record { own = true; path = log_file_of s channel; level = level } ∷ [];
          }
          else set)
        ≡ (if b then configured_logger s channel l else l)
  set_add s channel true l = refl
  set_add s channel false l = refl

  configure_channel-ok :
      (s : Settings) (channel : LogChannel) (w w' : LogWorld R F) (u : Unit {0}) (name : Text)
      → configure_channel R F (level_of R F s) (log_file_of s channel) channel w ≡ (ok u, w')
      → w'.loggers name ≡ (
          if same (channel_logger_name channel) name
          then configured_logger s channel (w.loggers name)
          else w.loggers name)
  unfolding configure_channel
  configure_channel-ok s channel w w' u name e =
      let own_name = channel_logger_name channel in
      let level = level_of R F s in
      let set : Logger → Logger =
        λ l. record { level = level; propagate = false; handlers = foreign l.handlers } in
      let w₁ : LogWorld R F = (on_logger R F own_name set w).1 in
      elim (proceed-Ran _ (file_handler R F (log_file_of s channel) level w₁) u w' e) [
        | ran handler w₂ e1 e2 ↦
            let (made, kept) = file_handler-ok (log_file_of s channel) level w₁ w₂ handler e1 in
            let add : Handler → Logger → Logger =
              λ k l. record l { handlers = l.handlers ++ k ∷ [] } in
            ap (λ x. x.1.loggers name) (sym e2)
            ∙ ap (λ l. if same own_name name then add handler (l name) else l name) kept
            ∙ ap (λ k. if same own_name name then add k (w₁.loggers name) else w₁.loggers name) made
            ∙ set_add s channel (same own_name name) (w.loggers name)
      ]

  configure_channels-ok :
      (s : Settings) (rest : List LogChannel) (w w' : LogWorld R F) (u : Unit {0}) (name : Text)
      → configure_channels R F (level_of R F s) s rest w ≡ (ok u, w')
      → w'.loggers name ≡ looped s rest name (w.loggers name)
  unfolding configure_channels
  configure_channels-ok s [] w w' u name e = ap (λ x. x.1.loggers name) (sym e)
  configure_channels-ok s (channel ∷ rest) w w' u name e =
      elim (proceed-Ran _ (configure_channel R F (level_of R F s) (log_file_of s channel) channel w)
        u w' e) [
          | ran v w₁ e1 e2 ↦
              configure_channels-ok s rest w₁ w' u name e2
              ∙ ap (looped s rest name) (configure_channel-ok s channel w w₁ v name e1)
        ]

  configure_logging-ok :
      (s : Settings) (w w' : LogWorld R F) (name : Text)
      → configure_logging R F s w ≡ (ok tt, w')
      → w'.loggers name ≡ looped s channels name (w.loggers name)
  unfolding configure_logging
  configure_logging-ok s w w' name e =
      elim (proceed-Ran _ (in_files R F (F.make_dir s.log_dir) w) tt w' e) [
        | ran u w₁ e1 h1 ↦
            elim (proceed-Ran _ (configure_channels R F (level_of R F s) s channels w₁) tt w' h1) [
              | ran v w₂ e2 h2 ↦
                  ap (λ x. x.1.loggers name) (sym h2)
                  ∙ configure_channels-ok s channels w₁ w₂ v name e2
                  ∙ ap (λ x. looped s channels name (x.1.loggers name)) (sym e1)
            ]
      ]

  looped_own :
      (s : Settings) (channel : LogChannel) (l : Logger)
      → looped s channels (channel_logger_name channel) l ≡ configured_logger s channel l
  unfolding channel_logger_name same
  looped_own s log_index_document l = refl
  looped_own s log_get_indexing_job_status l = refl
  looped_own s log_query_documents l = refl
  looped_own s log_delete_document l = refl
  looped_own s log_worker l = refl

  looped_other :
      (s : Settings) (rest : List LogChannel) (name : Text) (l : Logger)
      → ((channel : LogChannel) → same (channel_logger_name channel) name ≡ false)
      → looped s rest name l ≡ l
  looped_other s [] name l other = refl
  looped_other s (channel ∷ rest) name l other =
      ap (λ b. looped s rest name (if b then configured_logger s channel l else l)) (other channel)
      ∙ looped_other s rest name l other

  configured_logger-again :
      (s s' : Settings) (channel : LogChannel) (l : Logger)
      → configured_logger s' channel (configured_logger s channel l)
        ≡ configured_logger s' channel l
  configured_logger-again s s' channel l =
      let own : Handler = record {
        own = true;
        path = log_file_of s channel;
        level = level_of R F s;
      } in
      ap
        (λ k. record (configured_logger s' channel l) {
          handlers =
              k
              ++ record { own = true; path = log_file_of s' channel; level = level_of R F s' } ∷ [];
        })
        (foreign-append (foreign l.handlers) own refl ∙ foreign-foreign l.handlers)

  -- One call of `configure_logging` for each of the settings, in their order.
  abbrev pub configure_calls : Settings → List Settings → Exec (LogWorld R F) (Unit {0})
  configure_calls s [] w = configure_logging R F s w
  configure_calls s (next ∷ more) w =
      proceed (λ _. configure_calls next more) (configure_logging R F s w)

  abbrev pub last_settings : Settings → List Settings → Settings
  last_settings s [] = s
  last_settings s (next ∷ more) = last_settings next more

  -- The loggers after calls that have all returned.
  pub configure_calls-configured :
      (s : Settings) (more : List Settings) (w w' : LogWorld R F) (channel : LogChannel)
      (name : Text)
      → ((k : LogChannel) → same (channel_logger_name k) name ≡ false)
      → configure_calls s more w ≡ (ok tt, w')
      → (w'.loggers (channel_logger_name channel)
          ≡ configured_logger
              (last_settings s more)
              channel
              (w.loggers (channel_logger_name channel)))
        × (w'.loggers name ≡ w.loggers name)
  configure_calls-configured s [] w w' channel name other e = (
    configure_logging-ok s w w' (channel_logger_name channel) e
        ∙ looped_own s channel (w.loggers (channel_logger_name channel)),
    configure_logging-ok s w w' name e ∙ looped_other s channels name (w.loggers name) other,
  )
  configure_calls-configured s (next ∷ more) w w' channel name other e =
      elim (proceed-Ran _ (configure_logging R F s w) tt w' e) [
        | ran u w₁ e1 e2 ↦
            let (own, others) = configure_calls-configured next more w₁ w' channel name other e2 in
            let last = last_settings next more in
            let own_name = channel_logger_name channel in
            (
              own
                  ∙ ap (configured_logger last channel) (
                      configure_logging-ok s w w₁ own_name e1
                      ∙ looped_own s channel (w.loggers own_name))
                  ∙ configured_logger-again s last channel (w.loggers own_name),
              others
                  ∙ configure_logging-ok s w w₁ name e1
                  ∙ looped_other s channels name (w.loggers name) other,
            )
      ]
