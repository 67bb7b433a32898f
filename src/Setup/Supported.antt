-- ===== src/Setup/Supported.antt =====
-- The factories and config.py: the settings that the entry points need.
use mathlib.Core.Path.{subst}
use doccontext.Base.{◌≡◌, sym, ap, ◌∙◌, true, List, arith}
use doccontext.Base.{Text, codes, same, Bool-cases, inl, inr}
use doccontext.Base.Exn.{Result, ok}
use doccontext.Base.Exec.{ran, proceed-Ran}
use doccontext.Base.Dict.{Dict}
use doccontext.Base.Runtime.{Runtime}
use doccontext.Chunking.Defs.{RecursiveCharacterChunker, default_separators}
use doccontext.Setup.Config.{Settings, SettingsCache, get_settings}
use doccontext.Setup.Factories.{
  default_chunker, get_queue_consumer, get_queue_publisher, get_vector_store, no_provider,
  known_queues, known_vector_stores,
}
use doccontext.Setup.Defaults.{is_chunkable, IsRefused, init_refuses, kept_settings}
use doccontext.Setup.Process.{Process, in_settings, in_logs, begin}
use doccontext.Logging.Setup.{LogSystem, LogChannel, configure_logging, get_logger}

module _ (R : Runtime) where
  pub no_provider-raises :
      {A : Type 0} (known : List Text) (what provider : Text) (a : A)
      → no_provider R known what provider ≡ ok a
      → ⊥
  unfolding no_provider
  no_provider-raises known what provider a h = ground arith

  pub get_queue_consumer-ok :
      {A : Type 0} (build : Settings → A) (s : Settings) (a : A)
      → get_queue_consumer R build s ≡ ok a
      → same s.queue_provider (codes "rabbitmq") ≡ true
  unfolding get_queue_consumer
  get_queue_consumer-ok build s a h = elim (Bool-cases (same s.queue_provider (codes "rabbitmq"))) [
    | inl supported ↦ supported
    | inr other ↦
        absurd (no_provider-raises known_queues (codes "queue") s.queue_provider a (rw other at h))
  ]

  pub get_queue_publisher-ok :
      {A : Type 0} (build : Settings → A) (s : Settings) (a : A)
      → get_queue_publisher R build s ≡ ok a
      → same s.queue_provider (codes "rabbitmq") ≡ true
  unfolding get_queue_publisher
  get_queue_publisher-ok build s a h =
      elim (Bool-cases (same s.queue_provider (codes "rabbitmq"))) [
        | inl supported ↦ supported
        | inr other ↦
            absurd
              (no_provider-raises known_queues (codes "queue") s.queue_provider a (rw other at h))
      ]

  pub get_vector_store-ok :
      {A : Type 0} (build : Settings → Result A) (s : Settings) (a : A)
      → get_vector_store R build s ≡ ok a
      → same s.vector_store_provider (codes "qdrant") ≡ true
  unfolding get_vector_store
  get_vector_store-ok build s a h =
      elim (Bool-cases (same s.vector_store_provider (codes "qdrant"))) [
        | inl supported ↦ supported
        | inr other ↦ absurd (
            no_provider-raises known_vector_stores (codes "vector store") s.vector_store_provider a
              (rw other at h))
      ]

pub default_chunker-ok :
    (s : Settings) (c : RecursiveCharacterChunker)
    → default_chunker s ≡ ok c
    → is_chunkable s.chunk_size s.chunk_overlap ≡ true
unfolding default_chunker
default_chunker-ok s c h = elim (Bool-cases (is_chunkable s.chunk_size s.chunk_overlap)) [
  | inl supported ↦ supported
  | inr other ↦
      absurd
        (subst IsRefused h (init_refuses s.chunk_size s.chunk_overlap default_separators other))
]

module _ {E : Type 0} (read_settings : E → Result Settings) where
  -- `get_settings`, once it has returned, returns the same again.
  again :
      (c c' : SettingsCache E) (s : Settings)
      → get_settings read_settings c ≡ (ok s, c')
      → get_settings read_settings c' ≡ (ok s, c')
  unfolding get_settings
  again c c' s h =
      let kept = kept_settings read_settings c c' s h in
      rw (kept, get_settings) (ap (λ k. (ok s, record c' { cached = k })) kept)

module _ (R : Runtime) (F : LogSystem) {E S T : Type 0} (read_settings : E → Result Settings) where
  -- Both calls of `get_settings` return the same.
  pub begin-settings :
      (channel : LogChannel) (bound : Dict Text) (p q : Process R F E S T) (second s : Settings)
      (c' : SettingsCache E)
      → get_settings read_settings p.settings ≡ (ok s, c')
      → begin R F read_settings channel bound p ≡ (ok second, q)
      → second ≡ s
  unfolding begin
  begin-settings channel bound p q second s c' read h =
      elim (proceed-Ran _ (in_settings (get_settings read_settings) p) second q h) [
        | ran first p₁ e1 h1 ↦
            elim (proceed-Ran _ (in_logs (configure_logging R F first) p₁) second q h1) [
              | ran v p₂ e2 h2 ↦
                  elim (proceed-Ran _ (in_logs (get_logger R F first channel bound) p₂) second q
                    h2) [
                      | ran log p₃ e3 e4 ↦
                          let after_first : p₁.settings ≡ c' =
                            ap (λ x. x.1.settings) (sym e1) ∙ ap (λ x. x.1) read in
                          let after_logs : p₃.settings ≡ c' =
                            ap (λ x. x.1.settings) (sym e3)
                            ∙ ap (λ x. x.1.settings) (sym e2)
                            ∙ after_first in
                          let same_again : ok second ≡ ok s =
                            ap (λ x. x.0) (sym e4)
                            ∙ ap (λ c. (get_settings read_settings c).0) after_logs
                            ∙ ap (λ x. x.0) (again read_settings p.settings c' s read) in
                          ground arith
                    ]
            ]
      ]
