-- ===== src/Workers/DocumentWorker.antt =====
-- workers/document_worker.py: `DocumentWorker`, over any database, vector store, embedder, chunker
-- and extractor. The three moments are what `datetime.now(UTC)` returns in the transitions.
use doccontext.Base.{
  ℕ, Option, none, some, List, [], ◌∷◌, ◌++◌, map, Text, codes, is_empty, if◌then◌else◌,
}
use doccontext.Base.Exn.{Result, ok, raise, throw, value_error}
use doccontext.Base.Exec.{Exec, pure, lift, fail, ◌>>=◌, ◌>>◌, catch, focus}
use doccontext.Base.Runtime.{Runtime, decimal}
use doccontext.Base.Json.{Json}
use doccontext.Models.{JobType, index_document, delete_document, StoredChunk}
use doccontext.Chunking.Defs.{Chunk}
use doccontext.Jobs.Database.{Database}
use doccontext.Jobs.Repository.{mark_running, mark_succeeded, mark_failed}
use doccontext.Stores.Interface.{VectorStore, Embedder}
use doccontext.Workers.Envelope.{JobEnvelope, from_payload}

-- The parts that the worker is made of, and the functions that it calls: `extract_text`, the
-- chunker's `chunk`, and `uuid.uuid5` in the namespace of chunk ids.
pub record Parts : Type 1 where
  pub R : Runtime
  pub D : Database
  pub V : VectorStore R.Float
  pub embedder : Embedder R.Float
  pub chunk : Text → Result (List Chunk)
  pub extract_text : Text → Text → Result Text
  pub uuid5 : Text → Text

-- The moments of `mark_running`, of `mark_succeeded` and of `mark_failed`.
pub record Moments : Type 0 where
  pub started : ℕ
  pub finished : ℕ
  pub aborted : ℕ

module _ (P : Parts) where
  open P use {R, D, V}

  pub record World : Type 0 where
    pub db : D.State
    pub store : V.State

  abbrev pub in_db : {A : Type 0} → Exec D.State A → Exec World A
  in_db = focus (λ w. w.db) (λ w db. record w { db = db })

  abbrev pub in_store : {A : Type 0} → Exec V.State A → Exec World A
  in_store = focus (λ w. w.store) (λ w store. record w { store = store })

  -- ids.py, `chunk_id_for`
  unfoldable pub chunk_id_for : Text → ℕ → Text
  chunk_id_for document_id chunk_index = P.uuid5 (document_id ++ codes ":" ++ decimal R chunk_index)

  abbrev pub stored_chunk : JobEnvelope → Chunk → List R.Float → StoredChunk R.Float
  stored_chunk env c v = record {
    chunk_id = chunk_id_for env.document_id c.chunk_index;
    document_id = env.document_id;
    corpus_id = env.corpus_id;
    client_id = env.client_id;
    chunk_index = c.chunk_index;
    char_start = c.char_start;
    char_end = c.char_end;
    text = c.text;
    file_type = env.file_type;
    vector = v;
  }

  abbrev prepend :
      StoredChunk R.Float
      → Result (List (StoredChunk R.Float))
      → Result (List (StoredChunk R.Float))
  prepend c (ok stored) = ok (c ∷ stored)
  prepend c (raise e) = raise e

  -- The list that `_handle_index` builds with `zip(chunks, vectors, strict=True)`.
  unfoldable pub stored_chunks :
      JobEnvelope → List Chunk → List (List R.Float) → Result (List (StoredChunk R.Float))
  unfolding chunk_id_for
  stored_chunks env [] [] = ok []
  stored_chunks env (c ∷ chunks) [] =
      throw value_error (codes "zip() argument 2 is shorter than argument 1")
  stored_chunks env [] (v ∷ vectors) =
      throw value_error (codes "zip() argument 2 is longer than argument 1")
  stored_chunks env (c ∷ chunks) (v ∷ vectors) =
      prepend (stored_chunk env c v) (stored_chunks env chunks vectors)

  -- `_handle_index` behind the check for an empty list of chunks
  unfoldable pub index_chunks : JobEnvelope → List Chunk → Exec World ℕ
  index_chunks env [] = pure 0
  index_chunks env (c ∷ chunks) = do
    vectors ← lift (P.embedder.embed (map (λ k. k.text) (c ∷ chunks)))
    in_store (V.ensure_collection P.embedder.dim)
    stored ← lift (stored_chunks env (c ∷ chunks) vectors)
    in_store (V.upsert stored)

  unfoldable pub index_file : JobEnvelope → Text → Exec World ℕ
  index_file env path = do
    text ← lift (P.extract_text path env.file_type)
    chunks ← lift (P.chunk text)
    index_chunks env chunks

  abbrev missing_file_path : Exec World ℕ
  missing_file_path = lift (throw value_error (codes "INDEX_DOCUMENT envelope missing file_path"))

  -- `_handle_index`
  unfoldable pub handle_index : JobEnvelope → Option Text → Exec World ℕ
  unfolding index_file
  handle_index env none = missing_file_path
  handle_index env (some path) = if is_empty path then missing_file_path else index_file env path

  -- `_handle_delete`
  unfoldable pub handle_delete : JobEnvelope → Exec World ℕ
  handle_delete env = in_store (V.delete_by_document env.client_id env.document_id)

  -- What the `try` of `handle` does for the type of the job.
  unfoldable pub run_job : JobEnvelope → JobType → Exec World ℕ
  run_job env index_document = handle_index env env.file_path
  run_job env delete_document = handle_delete env

  -- `handle` behind `from_payload`
  unfoldable pub handle_job : Moments → JobEnvelope → Exec World Unit
  handle_job now env = do
    in_db (mark_running R D now.started env.job_id)
    catch (do run_job env env.job_type; in_db (mark_succeeded R D now.finished env.job_id); pure tt)
        (λ exc. do in_db (mark_failed R D now.aborted env.job_id exc.message); fail exc)

  -- `handle`
  unfoldable pub handle : Moments → Json R.Float → Exec World Unit
  unfolding handle_job
  handle now payload = do env ← lift (from_payload R payload); handle_job now env
