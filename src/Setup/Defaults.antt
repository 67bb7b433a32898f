-- ===== src/Setup/Defaults.antt =====
-- config.py, chunking/__init__.py and the factories: what one gets from which settings.
use mathlib.Core.Path.{subst}
use doccontext.Base.{◌<◌, ◌≡◌, refl, ap, Bool, true, false, Option, none, some, List}
use doccontext.Base.{
  arith, ◌⊎◌, inl, inr, Text, same, same_iff, same_refl, Bool-cases, Option-cases, ltb,
}
use doccontext.Base.Int.{ℤ, pos, negsuc}
use doccontext.Base.Exn.{Result, ok, raise, Result-cases, value_error}
use doccontext.Base.Exec.{Exec}
use doccontext.Base.Dict.{lookup, lookup-update}
use doccontext.Base.Runtime.{Runtime}
use doccontext.Chunking.Defs.{RecursiveCharacterChunker, default_separators, init, chunk}
use doccontext.Chunking.Cover.{ReturnsCover, chunk-Covers}
use doccontext.Stores.Interface.{Embedder}
use doccontext.Setup.Config.{Settings, SettingsCache, remember, get_settings, reload_settings}
use doccontext.Setup.Embeddings.{SentenceTransformer}
use doccontext.Setup.Factories.{default_chunker, Models, build_embedder, get_embedder}

-- The size is positive, and the overlap is not negative and below it.
abbrev pub is_chunkable : ℤ → ℤ → Bool
is_chunkable (pos n) (pos o) = ltb o n
is_chunkable size overlap = false

-- The constructor raised `ValueError`.
abbrev pub IsRefused : Result RecursiveCharacterChunker → Type 0
IsRefused (ok c) = ⊥
IsRefused (raise e) = e.kind ≡ value_error

pub init_refuses :
    (size overlap : ℤ) (separators : List Text)
    → is_chunkable size overlap ≡ false
    → IsRefused (init size overlap separators)
unfolding init
init_refuses (pos n) (pos o) separators h = ground arith
init_refuses (pos n) (negsuc o) separators h = ground arith
init_refuses (negsuc n) overlap separators h = ground arith

init_accepts :
    (size overlap : ℤ) (separators : List Text)
    → is_chunkable size overlap ≡ true
    → (c : RecursiveCharacterChunker) × (init size overlap separators ≡ ok c)
      × (size ≡ pos c.chunk_size)
      × (overlap ≡ pos c.chunk_overlap)
      × (c.chunk_overlap < c.chunk_size)
unfolding init
init_accepts (pos n) (pos o) separators h = (
  record { chunk_size = n; chunk_overlap = o; separators = separators },
  ground arith,
  refl,
  refl,
  ground arith,
)
init_accepts (pos n) (negsuc o) separators h = cc
init_accepts (negsuc n) overlap separators h = cc

-- The settings decide what `default_chunker` gives. If the size is positive and the overlap is from
-- 0 to below the size, it gives a chunker with this size and overlap, which returns chunks that
-- cover the text, for every text; with all other settings it raises `ValueError`.
pub default_chunker_cases :
    (s : Settings) (text : Text)
    → ((is_chunkable s.chunk_size s.chunk_overlap ≡ false) × IsRefused (default_chunker s))
      ⊎ ((c : RecursiveCharacterChunker) × (is_chunkable s.chunk_size s.chunk_overlap ≡ true)
          × (default_chunker s ≡ ok c)
          × (s.chunk_size ≡ pos c.chunk_size)
          × (s.chunk_overlap ≡ pos c.chunk_overlap)
          × ReturnsCover c text (chunk c text))
unfolding default_chunker
default_chunker_cases s text = elim (Bool-cases (is_chunkable s.chunk_size s.chunk_overlap)) [
  | inr bad ↦ inl (bad, init_refuses s.chunk_size s.chunk_overlap default_separators bad)
  | inl good ↦
      let (c, made, size, overlap, below) =
        init_accepts s.chunk_size s.chunk_overlap default_separators good in
      inr (c, good, made, size, overlap, chunk-Covers c text (omega arith))
]

module _ {E : Type 0} (read_settings : E → Result Settings) where
  pub kept_settings :
      (c c' : SettingsCache E) (s : Settings)
      → get_settings read_settings c ≡ (ok s, c')
      → c'.cached ≡ some s
  unfolding get_settings
  kept_settings c c' s h = elim (Option-cases c.cached) [
    | inr (old, e) ↦ ground arith
    | inl e ↦ elim (Result-cases (read_settings c.environment)) [
      | inl (fresh, r) ↦ ground arith
      | inr (exc, r) ↦ absurd (ground arith)
    ]
  ]

  read_again :
      (environment : E) (r : Result Settings)
      → (remember read_settings (record { environment = environment; cached = none }) r).0 ≡ r
  read_again environment (ok s) = refl
  read_again environment (raise e) = refl

  -- After `get_settings` has returned, it returns the same settings in every environment until
  -- `reload_settings` is called, which reads the environment of its call.
  pub get_settings_cached :
      (c c' : SettingsCache E) (s : Settings) (later : E)
      → get_settings read_settings c ≡ (ok s, c')
      → (get_settings read_settings (record c' { environment = later })
          ≡ (ok s, record c' { environment = later }))
        × ((reload_settings read_settings (record c' { environment = later })).0
            ≡ read_settings later)
  unfolding get_settings reload_settings
  get_settings_cached c c' s later h =
      let kept = kept_settings c c' s h in
      (
        rw (kept, get_settings) (ap (λ k. (ok s, record { environment = later; cached = k })) kept),
        read_again later (read_settings later),
      )

module _ (R : Runtime) {S : Type 0} (load_model : Exec S (SentenceTransformer R.Float)) where
  kept_embedder :
      (s : Settings) (c c' : Models R S) (e : Embedder R.Float)
      → get_embedder R load_model s c ≡ (ok e, c')
      → lookup s.embedding_provider c'.built ≡ some e
  unfolding get_embedder
  kept_embedder s c c' e h = elim (Option-cases (lookup s.embedding_provider c.built)) [
    | inr (old, l) ↦ ground arith
    | inl l ↦ elim (Result-cases (build_embedder R load_model s.embedding_provider c.world).0) [
      | inl (fresh, r) ↦ ground (
        arith,
        lookup-update s.embedding_provider s.embedding_provider
            (λ (_ : Option (Embedder R.Float)). fresh) c.built,
        same_refl s.embedding_provider,
      )
      | inr (exc, r) ↦ absurd (ground arith)
    ]
  ]

  -- The model of a provider is loaded once: after `get_embedder` has returned an embedder, every
  -- call with the same provider, whatever the other settings are, returns that embedder and
  -- changes nothing.
  pub get_embedder_once :
      (s later : Settings) (c c' : Models R S) (e : Embedder R.Float)
      → get_embedder R load_model s c ≡ (ok e, c')
      → same s.embedding_provider later.embedding_provider ≡ true
      → get_embedder R load_model later c' ≡ (ok e, c')
  unfolding get_embedder
  get_embedder_once s later c c' e h alike =
      let key = (same_iff s.embedding_provider later.embedding_provider).0 alike in
      let kept : lookup s.embedding_provider c'.built ≡ some e = kept_embedder s c c' e h in
      let kept' = subst (λ provider. lookup provider c'.built ≡ some e) key kept in
      rw (kept', get_embedder) refl
