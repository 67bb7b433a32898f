-- ===== src/Workers/Recall.antt =====
-- workers/document_worker.py and services/query_service.py over vector_stores/qdrant.py: a document
-- from its indexing job to the text that the whole-document route reads.
use mathlib.Core.Path.{subst, ap₂}
use doccontext.Base.{
  ℕ, ◌≡◌, refl, sym, ap, ◌∙◌, ◌<◌, ◌≤◌, true, false, some, List, [], ◌∷◌, map, arith,
}
use doccontext.Base.{length, take_all, is_empty, Text, same, same_iff}
use doccontext.Base.Int.{pos}
use doccontext.Base.Exn.{ok}
use doccontext.Base.Dict.{lookup}
use doccontext.Models.{StoredChunk, RetrievedChunk, index_document}
use doccontext.Chunking.Defs.{Chunk, RecursiveCharacterChunker, chunk}
use doccontext.Stores.Qdrant.{
  QdrantClient, point_of_chunk, chunk_of_point, contains_text, corpora_filter, ensure_collection,
  upsert, list_chunks_for_corpora,
}
use doccontext.Stores.Scan.{IsScrollable, list_chunks_for_corpora_lem, unscored}
use doccontext.Stores.Promise.{qdrant_store}
use doccontext.Stores.Upserts.{
  AllDistinct, ids, met, kept, IsUpserting, of_document-upserted, upsert-Ran,
}
use doccontext.Query.Documents.{assemble_documents}
use doccontext.Query.Grouping.{of_document}
use doccontext.Query.Rebuild.{AreCopies, assemble_documents-chunk}
use doccontext.Workers.Envelope.{JobEnvelope}
use doccontext.Workers.DocumentWorker.{Parts, World, chunk_id_for, run_job}
use doccontext.Workers.Indexing.{AllStored, run_job-AllStored}

-- The worker over a Qdrant store.
abbrev pub on_qdrant : (P : Parts) → QdrantClient P.R.Float → Text → Parts
on_qdrant P C col = record P { V = qdrant_store C col P.R.zero }

module _ (P : Parts) where
  open P use {R}

  abbrev read_back : List (StoredChunk R.Float) → List (RetrievedChunk R.Float)
  read_back ss = map (λ p. chunk_of_point p R.zero) (map point_of_chunk ss)

  abbrev pub chunk_ids : JobEnvelope → List Chunk → List Text
  chunk_ids env cs = map (λ c. chunk_id_for P env.document_id c.chunk_index) cs

  -- What the worker stores, seen by the store and by a scan of the job's client and corpus.
  abbrev AreRecalled : JobEnvelope → List Text → List Chunk → List (StoredChunk R.Float) → Type 0
  AreRecalled env corpus_ids cs ss =
      (length ss ≡ length cs)
      × AreCopies cs (read_back ss)
      × (ids (map point_of_chunk ss) ≡ chunk_ids env cs)
      × (met (corpora_filter env.client_id corpus_ids) (map point_of_chunk ss)
          ≡ map point_of_chunk ss)
      × (of_document env.document_id (read_back ss) ≡ read_back ss)

  stored-AreRecalled :
      (env : JobEnvelope) (corpus_ids : List Text) (cs : List Chunk) (vs : List (List R.Float))
      (ss : List (StoredChunk R.Float))
      → contains_text corpus_ids env.corpus_id ≡ true
      → AllStored P env cs vs ss
      → AreRecalled env corpus_ids cs ss
  unfolding of_document
  stored-AreRecalled env corpus_ids [] [] [] named h = (refl, tt, refl, refl, refl)
  stored-AreRecalled env corpus_ids (c ∷ cs) (v ∷ vs) (s ∷ ss) named h =
      let (size, copies, labels, listed, own) =
        stored-AreRecalled env corpus_ids cs vs ss named h.1 in
      let document : same s.document_id env.document_id ≡ true =
        (same_iff s.document_id env.document_id).1 h.0.1 in
      let client : same s.client_id env.client_id ≡ true =
        (same_iff s.client_id env.client_id).1 h.0.2 in
      let corpus : contains_text corpus_ids s.corpus_id ≡ true =
        ap (contains_text corpus_ids) h.0.3 ∙ named in
      (
        omega (arith, size),
        (h.0.5, copies),
        ap₂ (λ i l. i ∷ l) h.0.0 labels,
        rw (client, corpus) (ap (λ l. point_of_chunk s ∷ l) listed),
        rw document (ap (λ l. chunk_of_point (point_of_chunk s) R.zero ∷ l) own),
      )
  stored-AreRecalled env corpus_ids [] [] (s ∷ ss) named h = absurd h
  stored-AreRecalled env corpus_ids [] (v ∷ vs) ss named h = absurd h
  stored-AreRecalled env corpus_ids (c ∷ cs) [] ss named h = absurd h
  stored-AreRecalled env corpus_ids (c ∷ cs) (v ∷ vs) [] named h = absurd h

module _ (P : Parts) (C : QdrantClient P.R.Float) (L : IsScrollable C) (U : IsUpserting C L)
    (col : Text) where
  abbrev Q : Parts
  Q = on_qdrant P C col

  some_corpus :
      (corpus_ids : List Text) (t : Text)
      → contains_text corpus_ids t ≡ true
      → is_empty corpus_ids ≡ false
  some_corpus [] t h = cc
  some_corpus (i ∷ is) t h = refl

  -- The same from the upsert on.
  upserted-Recalled :
      (k : RecursiveCharacterChunker) (env : JobEnvelope) (text : Text) (cs : List Chunk)
      (vectors : List (List P.R.Float)) (stored : List (StoredChunk P.R.Float)) (s t : C.State)
      (n : ℕ) (corpus_ids : List Text) (limit : ℕ)
      → 0 < length text
      → 0 < k.chunk_size
      → 0 < length cs
      → chunk k text ≡ some cs
      → AllDistinct (chunk_ids P env cs)
      → contains_text corpus_ids env.corpus_id ≡ true
      → of_document env.document_id (
          unscored C L col P.R.zero
            (kept (chunk_ids P env cs) (L.listing s col (corpora_filter env.client_id corpus_ids))))
        ≡ []
      → AllStored Q env cs vectors stored
      → upsert C col P.R.zero stored s ≡ (ok n, t)
      → length (L.listing t col (corpora_filter env.client_id corpus_ids)) ≤ limit
      → (scanned : List (RetrievedChunk P.R.Float)) × (list_chunks_for_corpora C col P.R.zero
            env.client_id corpus_ids
            (pos limit)
            t
          ≡ some (ok scanned))
        × (lookup env.document_id (assemble_documents scanned) ≡ some text)
  unfolding chunk_id_for
  upserted-Recalled k env text cs vectors stored s t n corpus_ids limit some_text size some_chunks
        cut distinct named replaced all up enough =
      let filt = corpora_filter env.client_id corpus_ids in
      let (count, copies, labels, listed, own) =
        stored-AreRecalled Q env corpus_ids cs vectors stored named all in
      let there : 0 < length stored = omega (arith, count) in
      let sent = upsert-Ran P.R.zero C col stored n s t there up in
      (
        unscored C L col P.R.zero (L.listing t col filt),
        list_chunks_for_corpora_lem C L col P.R.zero t env.client_id corpus_ids limit
              (U.upserted_there s t col (map point_of_chunk stored) sent)
              (some_corpus corpus_ids env.corpus_id named)
            ∙ ap (λ l. some (ok (unscored C L col P.R.zero l)))
                (take_all limit (L.listing t col filt) enough),
        assemble_documents-chunk k text cs size some_text cut env.document_id (read_back Q stored)
            (unscored C L col P.R.zero (L.listing t col filt)) copies
            (of_document-upserted P.R.zero C L U s t col (map point_of_chunk stored) filt
              env.document_id (subst AllDistinct (sym labels) distinct) listed own
              (ap
                  (λ l.
                    of_document env.document_id
                      (unscored C L col P.R.zero (kept l (L.listing s col filt))))
                  labels
                ∙ replaced)
              sent),
      )

  -- An indexing job and the whole-document route, over one Qdrant store. The file of the job has a
  -- text that is not empty, the chunker, whose size is positive, cuts it into at least one chunk,
  -- there is one vector for each chunk, the collection is there or is made, and the job succeeds.
  -- If the ids of the chunks differ, the corpora that are asked for hold the one of the job, and
  -- each chunk of the document that they held before has one of these ids, then a scan of these
  -- corpora whose limit is large enough gives, put together, exactly the text of the file.
  pub run_job-Recalled :
      (k : RecursiveCharacterChunker) (env : JobEnvelope) (path text : Text) (c : Chunk)
      (cs : List Chunk) (vectors : List (List P.R.Float)) (w w' : World Q) (store : C.State) (n : ℕ)
      (corpus_ids : List Text) (limit : ℕ)
      → env.file_path ≡ some path
      → is_empty path ≡ false
      → P.extract_text path env.file_type ≡ ok text
      → 0 < length text
      → 0 < k.chunk_size
      → chunk k text ≡ some (c ∷ cs)
      → P.chunk text ≡ ok (c ∷ cs)
      → P.embedder.embed (map (λ c. c.text) (c ∷ cs)) ≡ ok vectors
      → length vectors ≡ length (c ∷ cs)
      → ensure_collection C col P.R.zero P.embedder.dim w.store ≡ (ok tt, store)
      → AllDistinct (chunk_ids P env (c ∷ cs))
      → contains_text corpus_ids env.corpus_id ≡ true
      → of_document env.document_id (
          unscored C L col P.R.zero (
            kept
              (chunk_ids P env (c ∷ cs))
              (L.listing store col (corpora_filter env.client_id corpus_ids))))
        ≡ []
      → run_job Q env index_document w ≡ (ok n, w')
      → length (L.listing w'.store col (corpora_filter env.client_id corpus_ids)) ≤ limit
      → (scanned : List (RetrievedChunk P.R.Float)) × (list_chunks_for_corpora C col P.R.zero
            env.client_id corpus_ids
            (pos limit)
            w'.store
          ≡ some (ok scanned))
        × (lookup env.document_id (assemble_documents scanned) ≡ some text)
  run_job-Recalled k env path text c cs vectors w w' store n corpus_ids limit located full read
        some_text size cut same_cut embedded count ready distinct named replaced ran enough =
      let (stored, run, all) =
        run_job-AllStored Q env path text c cs vectors w store located full read same_cut embedded
          count ready in
      upserted-Recalled k env text (c ∷ cs) vectors stored store w'.store n corpus_ids limit
        some_text size (omega arith) cut distinct named replaced all
        (ap (λ r. (r.0, r.1.store)) (sym run ∙ ran)) enough
