-- ===== src/Tests/Samples.antt =====
-- The values that the tests use. A floating-point number is a natural number here, and texts of
-- values are empty.
use doccontext.Base.{ℕ, not, ltb, ◌==◌, none, some, List, [], ◌∷◌, Text, codes}
use doccontext.Base.Int.{pos, to_nat}
use doccontext.Base.Exn.{ok}
use doccontext.Base.Runtime.{Runtime}
use doccontext.Models.{RetrievedChunk, index_document}
use doccontext.Chunking.Defs.{Chunk, RecursiveCharacterChunker, default_separators}
use doccontext.Jobs.Database.{Row}
use doccontext.Workers.Envelope.{JobEnvelope}

abbrev pub sample_runtime : Runtime
sample_runtime = record {
  Float = ℕ;
  zero = 0;
  one = 1;
  lt = ltb;
  float_of_int = λ n. some (to_nat n);
  float_of_text = λ t. none;
  int_of_text = λ t. none;
  int_of_float = λ x. ok (pos x);
  float_truthy = λ x. not (x == 0);
  float_to_fixed = λ x. [];
  repr = λ v. [];
  upper = λ t. t;
  strip = λ t. t;
  loads = λ t. none;
  dumps = λ v. [];
}

abbrev pub sample_text : Text
sample_text = codes "ab cd efg"

abbrev pub sample_chunker : RecursiveCharacterChunker
sample_chunker = record { chunk_size = 6; chunk_overlap = 2; separators = default_separators }

abbrev pub sample_chunks : List Chunk
sample_chunks =
    record { text = codes "ab cd "; chunk_index = 0; char_start = 0; char_end = 6 }
    ∷ record { text = codes "d efg"; chunk_index = 1; char_start = 4; char_end = 9 }
    ∷ []

abbrev pub copy_of : Text → Chunk → RetrievedChunk ℕ
copy_of document_id c = record {
  chunk_id = codes "x";
  document_id = document_id;
  corpus_id = codes "corpus";
  client_id = codes "client";
  chunk_index = c.chunk_index;
  char_start = c.char_start;
  char_end = c.char_end;
  text = c.text;
  file_type = codes "txt";
  score = 0;
}

abbrev pub sample_row : Row
sample_row = record {
  job_id = codes "j1";
  job_type = codes "INDEX_DOCUMENT";
  status = codes "QUEUED";
  client_id = codes "client";
  corpus_id = codes "corpus";
  document_id = codes "d1";
  file_type = codes "txt";
  file_path = some (codes "a.txt");
  error_message = none;
  created_at = 1;
  updated_at = 1;
}

abbrev pub sample_envelope : JobEnvelope
sample_envelope = record {
  job_id = codes "j1";
  job_type = index_document;
  client_id = codes "client";
  corpus_id = codes "corpus";
  document_id = codes "d1";
  file_type = codes "txt";
  file_path = some (codes "a.txt");
}
