-- ===== src/Tests/Requests.antt =====
-- The handlers over the job table in memory and a queue that keeps its messages.
use doccontext.Base.{ℕ, ◌≡◌, refl, List, [], ◌∷◌, inr, Text, codes}
use doccontext.Base.Int.{pos}
use doccontext.Base.Exn.{ok, abort_invalid_argument}
use doccontext.Base.Json.{Json}
use doccontext.Models.{job_type_to_str, job_status_to_str}
use doccontext.Jobs.Database.{fits}
use doccontext.Jobs.Memory.{memory_database, memory_database-IsDatabase}
use doccontext.Workers.Envelope.{JobEnvelope, from_payload, to_payload}
use doccontext.Services.Converters.{file_type_name, file_type_to_str}
use doccontext.Services.Handlers.{
  QueuePublisher, ServiceParts, Backend, IndexDocumentRequest, DeleteDocumentRequest,
  index_document_rpc, delete_document_rpc,
}
use doccontext.Services.Submission.{
  IsAborted, Submits, index_envelope, delete_envelope, index_document_rpc-Submits,
  index_document_rpc_invalid, delete_document_rpc-Submits,
}
use doccontext.Extractors.{Extractor, get_extractor}
use doccontext.Services.FileTypes.{get_extractor-file_type_to_str}
use doccontext.Tests.Samples.{sample_runtime, sample_row}
use doccontext.Tests.Rows.{find_row_other}

abbrev memory_queue : QueuePublisher ℕ
memory_queue = record {
  State = List (Text × Json ℕ);
  publish = λ queue payload s. (ok tt, (queue, payload) ∷ s);
}

abbrev pub service_parts : ServiceParts
service_parts = record {
  R = sample_runtime;
  D = memory_database;
  Q = memory_queue;
  document_jobs_queue = codes "document_jobs";
}

abbrev pub backend : Backend service_parts
backend = record { db = sample_row ∷ []; queue = [] }

abbrev pub request : IndexDocumentRequest
request = record {
  document_id = codes "";
  client_id = codes "c";
  user_id = codes "u";
  corpus_id = codes "k";
  file_type = pos 2;
  storage_path = codes "a.txt";
}

abbrev deletion : DeleteDocumentRequest
deletion = record { document_id = codes "d1"; client_id = codes "c"; user_id = codes "u" }

index_document_rpc-Submits_example :
    let env : JobEnvelope = index_envelope (codes "j2") (codes "d9") request (codes "txt") in
    Submits service_parts memory_database-IsDatabase 8 env backend
      (index_document_rpc service_parts 8 (codes "j2") (codes "d9") request backend)
    × (from_payload sample_runtime (to_payload sample_runtime env) ≡ ok env)
unfolding file_type_name fits job_type_to_str job_status_to_str
index_document_rpc-Submits_example =
    index_document_rpc-Submits service_parts memory_database-IsDatabase 8 (codes "j2") (codes "d9")
      request (codes "txt") backend refl refl refl refl find_row_other refl

index_document_rpc_invalid_example :
    let r =
      index_document_rpc service_parts 8
        (codes "j2")
        (codes "d9")
        (record request { file_type = pos 7 })
        backend in
    IsAborted abort_invalid_argument r.0 × (r.1 ≡ backend)
unfolding file_type_name
index_document_rpc_invalid_example =
    index_document_rpc_invalid service_parts memory_database-IsDatabase 8 (codes "j2") (codes "d9")
      (record request { file_type = pos 7 }) backend (inr (inr (inr refl)))

delete_document_rpc-Submits_example :
    let env : JobEnvelope = delete_envelope (codes "j2") deletion in
    Submits service_parts memory_database-IsDatabase 8 env backend
      (delete_document_rpc service_parts 8 (codes "j2") deletion backend)
    × (from_payload sample_runtime (to_payload sample_runtime env) ≡ ok env)
unfolding fits job_type_to_str job_status_to_str
delete_document_rpc-Submits_example =
    delete_document_rpc-Submits service_parts memory_database-IsDatabase 8 (codes "j2") deletion
      backend refl refl find_row_other refl

accepted : file_type_to_str sample_runtime (pos 3) ≡ ok (codes "md")
unfolding file_type_to_str
accepted = refl

get_extractor-file_type_to_str_example :
    (extractor : Extractor) × (get_extractor sample_runtime (codes "md") ≡ ok extractor)
get_extractor-file_type_to_str_example =
    get_extractor-file_type_to_str sample_runtime (pos 3) (codes "md") accepted
