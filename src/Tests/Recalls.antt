-- ===== src/Tests/Recalls.antt =====
-- A document from its job to the text that is read back, over the server in memory.
use doccontext.Base.{
  ℕ, ◌≡◌, ◌≤◌, refl, ap, map, none, some, List, [], ◌∷◌, Text, arith, codes, length, same, contains,
}
use doccontext.Base.Int.{pos}
use doccontext.Base.Exn.{ok}
use doccontext.Base.Json.{Json, int}
use doccontext.Base.Dict.{lookup}
use doccontext.Models.{RetrievedChunk, index_document}
use doccontext.Chunking.Defs.{chunk}
use doccontext.Stores.Qdrant.{
  Point, chunk_of_point, corpora_filter, list_chunks_for_corpora, ensure_collection, upsert,
}
use doccontext.Stores.Memory.{
  matching, memory_listing, memory_client, memory_client-IsScrollable, memory_client-IsUpserting,
}
use doccontext.Stores.Upserts.{kept}
use doccontext.Query.Documents.{assemble_documents}
use doccontext.Query.Grouping.{of_document}
use doccontext.Workers.DocumentWorker.{
  Parts, World, run_job, handle_index, index_chunks, stored_chunks, chunk_id_for,
}
use doccontext.Workers.Recall.{on_qdrant, chunk_ids, run_job-Recalled}
use doccontext.Tests.Samples.{
  sample_runtime, sample_row, sample_envelope, sample_text, sample_chunker, sample_chunks,
}
use doccontext.Tests.Work.{sample_parts}

-- The text of a number is one code.
abbrev text_of_value : Json ℕ → Text
text_of_value (int (pos n)) = n ∷ []
text_of_value v = []

-- The worker with the chunker, and with files that all hold the text.
abbrev parts : Parts
parts = record sample_parts {
  R = record sample_runtime { repr = text_of_value };
  chunk = λ text. ok (elim (chunk sample_chunker text) [ none ↦ [] | some chunks ↦ chunks ]);
  extract_text = λ path file_type. ok sample_text;
}

abbrev worker : Parts
worker = on_qdrant parts memory_client (codes "documents")

abbrev made_point : List ℕ → List ℕ → ℕ → ℕ → ℕ → List ℕ → ℕ → Point ℕ
made_point id document chunk_index char_start char_end text size = record {
  id = id;
  vector = size ∷ [];
  payload = record {
    chunk_id = some id;
    document_id = some document;
    corpus_id = some (codes "corpus");
    client_id = some (codes "client");
    chunk_index = some chunk_index;
    char_start = some char_start;
    char_end = some char_end;
    text = some text;
    file_type = some (codes "txt");
  };
}

abbrev other : Point ℕ
other = made_point (codes "p") (codes "d2") 0 0 2 (codes "zz") 2

-- The first chunk of an earlier text of the document.
abbrev old : Point ℕ
old = made_point (chunk_id_for parts (codes "d1") 0) (codes "d1") 0 0 2 (codes "yy") 2

abbrev before : World worker
before = record { db = sample_row ∷ []; store = old ∷ other ∷ [] }

abbrev after : World worker
after = record {
  db = sample_row ∷ [];
  store =
      made_point (chunk_id_for parts (codes "d1") 0) (codes "d1") 0 0 6 (codes "ab cd ") 6
      ∷ made_point (chunk_id_for parts (codes "d1") 1) (codes "d1") 1 4 9 (codes "d efg") 5
      ∷ other
      ∷ [];
}

cut : chunk sample_chunker sample_text ≡ some sample_chunks
unfolding chunk contains
cut = refl

job_done : run_job worker sample_envelope index_document before ≡ (ok 2, after)
unfolding run_job handle_index index_chunks stored_chunks ensure_collection upsert chunk_id_for
    chunk contains same
job_done = refl

abbrev found : List (Point ℕ) → List (Point ℕ)
found s =
    memory_client-IsScrollable.listing s (codes "documents")
      (corpora_filter (codes "client") (codes "other" ∷ codes "corpus" ∷ []))

old_replaced :
    of_document (codes "d1") (
      map
        (λ p. chunk_of_point p 0)
        (kept (chunk_ids parts sample_envelope sample_chunks) (found before.store)))
    ≡ []
unfolding of_document matching same chunk_id_for
old_replaced =
    ap
      (λ l.
        of_document (codes "d1")
          (map (λ p. chunk_of_point p 0) (kept (chunk_ids parts sample_envelope sample_chunks) l)))
      (memory_listing before.store (codes "documents")
        (corpora_filter (codes "client") (codes "other" ∷ codes "corpus" ∷ [])))

few_found : length (found after.store) ≤ 9
unfolding matching same chunk_id_for
few_found = omega (
  arith,
  ap length (
      memory_listing after.store (codes "documents")
        (corpora_filter (codes "client") (codes "other" ∷ codes "corpus" ∷ []))),
)

run_job-Recalled_example :
    (scanned : List (RetrievedChunk ℕ)) × (list_chunks_for_corpora memory_client
        (codes "documents")
        0
        (codes "client")
        (codes "other" ∷ codes "corpus" ∷ [])
        (pos 9)
        after.store
      ≡ some (ok scanned))
    × (lookup (codes "d1") (assemble_documents scanned) ≡ some sample_text)
unfolding ensure_collection chunk contains same of_document matching chunk_id_for
run_job-Recalled_example =
    run_job-Recalled parts memory_client memory_client-IsScrollable memory_client-IsUpserting
      (codes "documents") sample_chunker sample_envelope (codes "a.txt") sample_text
      (record { text = codes "ab cd "; chunk_index = 0; char_start = 0; char_end = 6 })
      (record { text = codes "d efg"; chunk_index = 1; char_start = 4; char_end = 9 } ∷ [])
      ((6 ∷ []) ∷ (5 ∷ []) ∷ []) before after before.store 2 (codes "other" ∷ codes "corpus" ∷ []) 9
      refl refl refl (omega arith) (omega arith) cut refl refl refl refl (refl, (refl, tt)) refl
      old_replaced job_done few_found
