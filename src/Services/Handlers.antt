-- ===== src/Services/Handlers.antt =====
-- services/index_service.py, delete_service.py and status_service.py: the handlers over any
-- database and any queue. `job_id` and `fresh_id` are what `new_job_id()` and `new_document_id()`
-- return, `now` is the clock's time. Log lines are left out.
use doccontext.Base.{ℕ, Option, none, some, ◌++◌, Text, codes, is_empty, if◌then◌else◌}
use doccontext.Base.Int.{ℤ}
use doccontext.Base.Exn.{ok, raise, throw, abort_invalid_argument, abort_not_found}
use doccontext.Base.Exec.{Exec, pure, lift, ◌>>=◌, ◌>>◌, focus}
use doccontext.Base.Json.{Json}
use doccontext.Base.Runtime.{Runtime}
use doccontext.Models.{Job, index_document, delete_document, queued}
use doccontext.Jobs.Database.{Database}
use doccontext.Jobs.Repository.{create, get}
use doccontext.Workers.Envelope.{JobEnvelope, to_payload}
use doccontext.Services.Converters.{file_type_to_str, status_to_proto}

-- queue/base.py, `QueuePublisher`
pub record QueuePublisher (F : Type 0) : Type 1 where
  pub State : Type 0
  -- queue, payload
  pub publish : Text → Json F → Exec State (Unit {0})

-- `pb.IndexDocumentRequest`; the handler does not read `metadata`.
pub record IndexDocumentRequest : Type 0 where
  pub document_id : Text
  pub client_id : Text
  pub user_id : Text
  pub corpus_id : Text
  pub file_type : ℤ
  pub storage_path : Text

-- `pb.DeleteDocumentRequest`
pub record DeleteDocumentRequest : Type 0 where
  pub document_id : Text
  pub client_id : Text
  pub user_id : Text

-- `pb.IndexDocumentResponse` and `pb.DeleteDocumentResponse`
pub record QueuedResponse : Type 0 where
  pub job_id : Text
  pub status : ℕ

-- `pb.GetIndexingJobStatusResponse`
pub record StatusResponse : Type 0 where
  pub job_id : Text
  pub document_id : Text
  pub status : ℕ
  pub error_message : Text

-- The parts of the handlers.
pub record ServiceParts : Type 1 where
  pub R : Runtime
  pub D : Database
  pub Q : QueuePublisher R.Float
  pub document_jobs_queue : Text

-- `error_message or ""`
abbrev pub or_empty : Option Text → Text
or_empty none = codes ""
or_empty (some t) = t

module _ (P : ServiceParts) where
  open P use {R, D, Q}

  pub record Backend : Type 0 where
    pub db : D.State
    pub queue : Q.State

  abbrev pub in_db : {A : Type 0} → Exec D.State A → Exec Backend A
  in_db = focus (λ w. w.db) (λ w db. record w { db = db })

  abbrev pub in_queue : {A : Type 0} → Exec Q.State A → Exec Backend A
  in_queue = focus (λ w. w.queue) (λ w queue. record w { queue = queue })

  -- `if not text: await context.abort(INVALID_ARGUMENT, message)`
  abbrev pub require : Text → Text → Exec Backend (Unit {0})
  require text message w =
      (if is_empty text then throw abort_invalid_argument message else ok tt, w)

  -- `try: file_type_to_str(...) except ValueError as exc: context.abort(..., str(exc))`
  abbrev pub converted_type : ℤ → Exec Backend Text
  converted_type file_type w = (
    elim (file_type_to_str R file_type) [
      | ok name ↦ ok name
      | raise exc ↦ throw abort_invalid_argument exc.message
    ],
    w,
  )

  -- The row, the envelope and the message of a new job, and the reply.
  unfoldable pub submit : ℕ → JobEnvelope → Exec Backend QueuedResponse
  submit now env = do
    in_db (
        create R D now env.job_id env.job_type env.client_id env.corpus_id env.document_id
          env.file_type env.file_path)
    in_queue (Q.publish P.document_jobs_queue (to_payload R env))
    pure (record { job_id = env.job_id; status = status_to_proto queued })

  -- `IndexDocumentHandler.handle`
  unfoldable pub index_document_rpc :
      ℕ → Text → Text → IndexDocumentRequest → Exec Backend QueuedResponse
  index_document_rpc now job_id fresh_id request = do
    require request.client_id (codes "client_id is required")
    require request.corpus_id (codes "corpus_id is required")
    require request.storage_path (codes "storage_path is required")
    file_type ← converted_type request.file_type
    submit now (record {
      job_id = job_id;
      job_type = index_document;
      client_id = request.client_id;
      corpus_id = request.corpus_id;
      document_id = if is_empty request.document_id then fresh_id else request.document_id;
      file_type = file_type;
      file_path = some request.storage_path;
    })

  -- `DeleteDocumentHandler.handle`
  unfoldable pub delete_document_rpc :
      ℕ → Text → DeleteDocumentRequest → Exec Backend QueuedResponse
  delete_document_rpc now job_id request = do
    require request.client_id (codes "client_id is required")
    require request.document_id (codes "document_id is required")
    submit now (record {
      job_id = job_id;
      job_type = delete_document;
      client_id = request.client_id;
      corpus_id = codes "";
      document_id = request.document_id;
      file_type = codes "";
      file_path = none;
    })

  abbrev status_reply : Text → Option Job → Exec Backend StatusResponse
  status_reply job_id none =
      lift (throw abort_not_found (codes "job " ++ job_id ++ codes " not found"))
  status_reply job_id (some job) = pure (record {
    job_id = job.job_id;
    document_id = job.document_id;
    status = status_to_proto job.status;
    error_message = or_empty job.error_message;
  })

  -- `GetIndexingJobStatusHandler.handle`
  unfoldable pub get_indexing_job_status_rpc : Text → Exec Backend StatusResponse
  get_indexing_job_status_rpc job_id = do
    require job_id (codes "job_id is required")
    job ← in_db (get R D job_id)
    status_reply job_id job
