-- ===== src/Tests/Chunks.antt =====
-- The chunker and the reader of whole documents on a short text.
use mathlib.Core.List.Perm
use doccontext.Base.{ℕ, ◌≡◌, refl, some, List, [], ◌∷◌, same, contains, arith, codes}
use doccontext.Base.Dict.{lookup}
use doccontext.Models.{RetrievedChunk}
use doccontext.Chunking.Defs.{Chunk, chunk}
use doccontext.Chunking.Cover.{ReturnsCover, chunk-Covers}
use doccontext.Chunking.Passages.{Holds, chunk-Holds}
use doccontext.Query.Documents.{assemble_documents}
use doccontext.Query.Grouping.{of_document}
use doccontext.Query.Rebuild.{assemble_documents-chunk}
use doccontext.Tests.Samples.{sample_text, sample_chunker, sample_chunks, copy_of}

chunk_sample : chunk sample_chunker sample_text ≡ some sample_chunks
unfolding chunk contains
chunk_sample = refl

chunk-Covers_example : ReturnsCover sample_chunker sample_text (chunk sample_chunker sample_text)
chunk-Covers_example = chunk-Covers sample_chunker sample_text (omega arith)

chunk-Holds_example :
    (chunks : List Chunk) × (chunk sample_chunker sample_text ≡ some chunks) × Holds 5 8 chunks
chunk-Holds_example =
    chunk-Holds sample_chunker sample_text 5 8 (omega arith) (omega arith) (omega arith)
      (omega arith)

-- The chunks of the text, and a scan that has them in the wrong order, and a chunk of another document.
abbrev first : RetrievedChunk ℕ
first =
    copy_of (codes "d1")
      (record { text = codes "ab cd "; chunk_index = 0; char_start = 0; char_end = 6 })

abbrev last : RetrievedChunk ℕ
last =
    copy_of (codes "d1")
      (record { text = codes "d efg"; chunk_index = 1; char_start = 4; char_end = 9 })

abbrev copies : List (RetrievedChunk ℕ)
copies = first ∷ last ∷ []

abbrev scanned : List (RetrievedChunk ℕ)
scanned =
    last
    ∷ copy_of (codes "d2")
        (record { text = codes "zz"; chunk_index = 0; char_start = 0; char_end = 2 })
    ∷ first
    ∷ []

assemble_documents-chunk_example :
    lookup (codes "d1") (assemble_documents scanned) ≡ some sample_text
unfolding same of_document
assemble_documents-chunk_example =
    assemble_documents-chunk sample_chunker sample_text sample_chunks (omega arith) (omega arith)
      chunk_sample (codes "d1") copies scanned
      ((refl, refl, refl, refl), ((refl, refl, refl, refl), tt)) (Perm.swap last first [])
