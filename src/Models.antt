-- ===== src/Models.antt =====
-- models/job.py and models/chunk.py: the records that the parts of the program exchange.
-- Floating-point numbers (vectors and scores) are a type `F`; a `datetime` is a number of
-- microseconds.
use doccontext.Base.{ℕ, Option, none, some, List, Text, codes, same, if◌then◌else◌}

-- `JobType`
pub data JobType : Type 0 where
  index_document delete_document : JobType

-- `JobStatus`
pub data JobStatus : Type 0 where
  queued running succeeded failed : JobStatus

-- `str(job_type)`
unfoldable pub job_type_to_str : JobType → Text
job_type_to_str index_document = codes "INDEX_DOCUMENT"
job_type_to_str delete_document = codes "DELETE_DOCUMENT"

-- `JobType(value)`, with `none` for the `ValueError`
unfoldable pub job_type_of_str : Text → Option JobType
job_type_of_str value =
    if same value (codes "INDEX_DOCUMENT")
    then some index_document
    else if same value (codes "DELETE_DOCUMENT")
    then some delete_document
    else none

-- `str(status)`
unfoldable pub job_status_to_str : JobStatus → Text
job_status_to_str queued = codes "QUEUED"
job_status_to_str running = codes "RUNNING"
job_status_to_str succeeded = codes "SUCCEEDED"
job_status_to_str failed = codes "FAILED"

-- `JobStatus(value)`
unfoldable pub job_status_of_str : Text → Option JobStatus
job_status_of_str value =
    if same value (codes "QUEUED")
    then some queued
    else if same value (codes "RUNNING")
    then some running
    else if same value (codes "SUCCEEDED")
    then some succeeded
    else if same value (codes "FAILED")
    then some failed
    else none

-- `Job`
pub record Job : Type 0 where
  pub job_id : Text
  pub job_type : JobType
  pub status : JobStatus
  pub client_id : Text
  pub corpus_id : Text
  pub document_id : Text
  pub file_type : Text
  pub file_path : Option Text
  pub error_message : Option Text
  pub created_at : ℕ
  pub updated_at : ℕ

-- `StoredChunk`
pub record StoredChunk (F : Type 0) : Type 0 where
  pub chunk_id : Text
  pub document_id : Text
  pub corpus_id : Text
  pub client_id : Text
  pub chunk_index : ℕ
  pub char_start : ℕ
  pub char_end : ℕ
  pub text : Text
  pub file_type : Text
  pub vector : List F

-- `RetrievedChunk`
pub record RetrievedChunk (F : Type 0) : Type 0 where
  pub chunk_id : Text
  pub document_id : Text
  pub corpus_id : Text
  pub client_id : Text
  pub chunk_index : ℕ
  pub char_start : ℕ
  pub char_end : ℕ
  pub text : Text
  pub file_type : Text
  pub score : F
