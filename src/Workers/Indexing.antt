-- ===== src/Workers/Indexing.antt =====
-- workers/document_worker.py: `_handle_index` and the chunks that it stores.
use mathlib.Core.List.{List, [], ◌∷◌}
use doccontext.Base.{◌≡◌, refl, ap, ◌∙◌, false, some, map, arith, length, is_empty, Text}
use doccontext.Base.Exn.{ok}
use doccontext.Models.{StoredChunk, index_document}
use doccontext.Chunking.Defs.{Chunk}
use doccontext.Stores.Qdrant.{point_of_chunk, chunk_of_point}
use doccontext.Query.Rebuild.{IsCopy}
use doccontext.Workers.Envelope.{JobEnvelope}
use doccontext.Workers.DocumentWorker.{
  Parts, World, in_store, chunk_id_for, stored_chunk, stored_chunks, index_chunks, index_file,
  handle_index, run_job,
}

module _ (P : Parts) where
  open P use {R, D, V}

  -- The stored chunk is the chunk and its vector, under the ids of the job; read back from its point
  -- it has the text and the positions of the chunk.
  abbrev pub IsStored : JobEnvelope → Chunk → List R.Float → StoredChunk R.Float → Type 0
  IsStored env c v s =
      (s.chunk_id ≡ chunk_id_for P env.document_id c.chunk_index)
      × (s.document_id ≡ env.document_id)
      × (s.client_id ≡ env.client_id)
      × (s.corpus_id ≡ env.corpus_id)
      × (s.vector ≡ v)
      × IsCopy c (chunk_of_point (point_of_chunk s) R.zero)

  abbrev pub AllStored :
      JobEnvelope → List Chunk → List (List R.Float) → List (StoredChunk R.Float) → Type 0
  AllStored env (c ∷ cs) (v ∷ vs) (s ∷ ss) = IsStored env c v s × AllStored env cs vs ss
  AllStored env [] [] [] = Unit
  AllStored env cs vs ss = ⊥

  stored_chunks-AllStored :
      (env : JobEnvelope) (chunks : List Chunk) (vectors : List (List R.Float))
      → length vectors ≡ length chunks
      → (stored : List (StoredChunk R.Float)) × (stored_chunks P env chunks vectors ≡ ok stored)
        × AllStored env chunks vectors stored
  unfolding stored_chunks
  stored_chunks-AllStored env [] [] e = ([], refl, tt)
  stored_chunks-AllStored env [] (v ∷ vs) e = absurd (omega arith)
  stored_chunks-AllStored env (c ∷ cs) [] e = absurd (omega arith)
  stored_chunks-AllStored env (c ∷ cs) (v ∷ vs) e =
      let (stored, zipped, all) = stored_chunks-AllStored env cs vs (omega arith) in
      (
        stored_chunk P env c v ∷ stored,
        rw zipped refl,
        ((refl, refl, refl, refl, refl, (refl, refl, refl, refl)), all),
      )

  handle_index-store :
      (env : JobEnvelope) (path text : Text) (c : Chunk) (cs : List Chunk)
      (vectors : List (List R.Float)) (stored : List (StoredChunk R.Float)) (w : World P)
      (store : V.State)
      → is_empty path ≡ false
      → P.extract_text path env.file_type ≡ ok text
      → P.chunk text ≡ ok (c ∷ cs)
      → P.embedder.embed (map (λ k. k.text) (c ∷ cs)) ≡ ok vectors
      → V.ensure_collection P.embedder.dim w.store ≡ (ok tt, store)
      → stored_chunks P env (c ∷ cs) vectors ≡ ok stored
      → handle_index P env (some path) w ≡ in_store P (V.upsert stored) (record w { store = store })
  unfolding handle_index index_file index_chunks
  handle_index-store env path text c cs vectors stored w store full read cut embedded ready zipped =
      rw (full, read, cut, embedded, ready, zipped) refl

  -- An indexing job whose file is read, cut into at least one chunk and embedded, one vector for
  -- each chunk, and for which the collection is there, ends as the upsert of its stored chunks
  -- ends: one for each chunk, in order, with its vector, its text and its positions, under the
  -- client, corpus and document of the job.
  pub run_job-AllStored :
      (env : JobEnvelope) (path text : Text) (c : Chunk) (cs : List Chunk)
      (vectors : List (List R.Float)) (w : World P) (store : V.State)
      → env.file_path ≡ some path
      → is_empty path ≡ false
      → P.extract_text path env.file_type ≡ ok text
      → P.chunk text ≡ ok (c ∷ cs)
      → P.embedder.embed (map (λ k. k.text) (c ∷ cs)) ≡ ok vectors
      → length vectors ≡ length (c ∷ cs)
      → V.ensure_collection P.embedder.dim w.store ≡ (ok tt, store)
      → (stored : List (StoredChunk R.Float)) × (run_job P env index_document w
          ≡ in_store P (V.upsert stored) (record w { store = store }))
        × AllStored env (c ∷ cs) vectors stored
  unfolding run_job
  run_job-AllStored env path text c cs vectors w store located full read cut embedded count ready =
      let (stored, zipped, all) = stored_chunks-AllStored env (c ∷ cs) vectors count in
      (
        stored,
        ap (λ p. handle_index P env p w) located
            ∙ handle_index-store env path text c cs vectors stored w store full read cut embedded
                ready zipped,
        all,
      )
