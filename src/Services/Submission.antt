-- ===== src/Services/Submission.antt =====
-- services/index_service.py, delete_service.py and status_service.py: what the handlers leave, and
-- what they reply.
use doccontext.Base.{ℕ, ◌≡◌, ap, ◌∙◌, true, false, none, some, arith, ◌⊎◌, inl, inr}
use doccontext.Base.{Text, codes, is_empty, if◌then◌else◌}
use doccontext.Base.Exn.{
  Result, ok, raise, Result-cases, abort_invalid_argument, abort_not_found, ExnKind,
}
use doccontext.Models.{index_document, delete_document, queued}
use doccontext.Jobs.Database.{Row, IsDatabase, fits}
use doccontext.Jobs.Repository.{new_row, get}
use doccontext.Jobs.Rows.{IsSound, to_domain-IsSound}
use doccontext.Jobs.Lifecycle.{Writes, create_fresh}
use doccontext.Workers.Envelope.{JobEnvelope, to_payload, from_payload}
use doccontext.Workers.RoundTrip.{from_payload-to_payload, path_or_none_full}
use doccontext.Services.Converters.{file_type_to_str, file_type_name, status_to_proto}
use doccontext.Services.Handlers.{
  ServiceParts, Backend, QueuedResponse, IndexDocumentRequest, DeleteDocumentRequest, submit,
  index_document_rpc, delete_document_rpc, get_indexing_job_status_rpc, or_empty,
}

-- The row of a new job.
abbrev pub queued_row : ℕ → JobEnvelope → Row
queued_row now env =
    new_row now env.job_id env.job_type env.client_id env.corpus_id env.document_id env.file_type
      env.file_path

-- The call was aborted with the status code.
abbrev pub IsAborted : {A : Type 0} → ExnKind → Result A → Type 0
IsAborted kind (ok a) = ⊥
IsAborted kind (raise e) = e.kind ≡ kind

-- The envelope of a valid IndexDocument request.
abbrev pub index_envelope : Text → Text → IndexDocumentRequest → Text → JobEnvelope
index_envelope job_id fresh_id request file_type = record {
  job_id = job_id;
  job_type = index_document;
  client_id = request.client_id;
  corpus_id = request.corpus_id;
  document_id = if is_empty request.document_id then fresh_id else request.document_id;
  file_type = file_type;
  file_path = some request.storage_path;
}

-- The envelope of a valid DeleteDocument request.
abbrev pub delete_envelope : Text → DeleteDocumentRequest → JobEnvelope
delete_envelope job_id request = record {
  job_id = job_id;
  job_type = delete_document;
  client_id = request.client_id;
  corpus_id = codes "";
  document_id = request.document_id;
  file_type = codes "";
  file_path = none;
}

module _ (P : ServiceParts) (L : IsDatabase P.D) where
  open P use {R, D, Q}

  -- The reply, if the message could be published.
  abbrev pub published : JobEnvelope → Result (Unit {0}) → Result QueuedResponse
  published env (ok _) = ok (record { job_id = env.job_id; status = status_to_proto queued })
  published env (raise e) = raise e

  -- The job is in the table as QUEUED, and its envelope is on the queue, if the queue took it.
  abbrev pub Submits : ℕ → JobEnvelope → Backend P → Result QueuedResponse × Backend P → Type 0
  Submits now env w result =
      let (r, queue) = Q.publish P.document_jobs_queue (to_payload R env) w.queue in
      (db : D.State) × (result ≡ (published env r, record { db = db; queue = queue }))
      × Writes D w.db db env.job_id (queued_row now env)

  pub submit-Submits :
      (now : ℕ) (env : JobEnvelope) (w : Backend P)
      → D.get w.db env.job_id ≡ none
      → fits (queued_row now env) ≡ true
      → Submits now env w (submit P now env w)
  unfolding submit
  submit-Submits now env w free ok_row =
      let (db, created, writes) =
        create_fresh R D L now env.job_id env.job_type env.client_id env.corpus_id env.document_id
          env.file_type env.file_path w.db free ok_row in
      elim (Result-cases (Q.publish P.document_jobs_queue (to_payload R env) w.queue).0) [
        | inl (u, e) ↦ (db, ground arith, writes)
        | inr (exc, e) ↦ (db, ground arith, writes)
      ]

  -- A request with a client, a corpus, a path and a known file type, under a job id that is new and
  -- with values that fit the table, is submitted; the message that is published is read back by the
  -- worker as the envelope with the values of the request.
  pub index_document_rpc-Submits :
      (now : ℕ) (job_id fresh_id : Text) (request : IndexDocumentRequest) (file_type : Text)
      (w : Backend P)
      → is_empty request.client_id ≡ false
      → is_empty request.corpus_id ≡ false
      → is_empty request.storage_path ≡ false
      → file_type_name request.file_type ≡ some file_type
      → D.get w.db job_id ≡ none
      → fits (queued_row now (index_envelope job_id fresh_id request file_type)) ≡ true
      → let env : JobEnvelope = index_envelope job_id fresh_id request file_type in
        Submits now env w (index_document_rpc P now job_id fresh_id request w)
        × (from_payload R (to_payload R env) ≡ ok env)
  unfolding index_document_rpc file_type_to_str
  index_document_rpc-Submits now job_id fresh_id request file_type w client corpus path known free
        ok_row =
      let env : JobEnvelope = index_envelope job_id fresh_id request file_type in
      (
        rw (client, corpus, path, known) (submit-Submits now env w free ok_row),
        from_payload-to_payload R env
            ∙ ap (λ p. ok (record env { file_path = p }))
                (path_or_none_full request.storage_path path),
      )

  -- A request that lacks one of them is aborted with INVALID_ARGUMENT, and nothing has changed.
  pub index_document_rpc_invalid :
      (now : ℕ) (job_id fresh_id : Text) (request : IndexDocumentRequest) (w : Backend P)
      → (is_empty request.client_id ≡ true)
        ⊎ (is_empty request.corpus_id ≡ true)
        ⊎ (is_empty request.storage_path ≡ true)
        ⊎ (file_type_name request.file_type ≡ none)
      → IsAborted abort_invalid_argument (index_document_rpc P now job_id fresh_id request w).0
        × ((index_document_rpc P now job_id fresh_id request w).1 ≡ w)
  unfolding index_document_rpc file_type_to_str
  index_document_rpc_invalid now job_id fresh_id request w h = ground arith

  -- A request with a client and a document, under a job id that is new and with values that fit the
  -- table, is submitted as a deletion, and its message is read back as that envelope.
  pub delete_document_rpc-Submits :
      (now : ℕ) (job_id : Text) (request : DeleteDocumentRequest) (w : Backend P)
      → is_empty request.client_id ≡ false
      → is_empty request.document_id ≡ false
      → D.get w.db job_id ≡ none
      → fits (queued_row now (delete_envelope job_id request)) ≡ true
      → let env : JobEnvelope = delete_envelope job_id request in
        Submits now env w (delete_document_rpc P now job_id request w)
        × (from_payload R (to_payload R env) ≡ ok env)
  unfolding delete_document_rpc
  delete_document_rpc-Submits now job_id request w client document free ok_row =
      let env : JobEnvelope = delete_envelope job_id request in
      (rw (client, document) (submit-Submits now env w free ok_row), from_payload-to_payload R env)

  -- GetIndexingJobStatus answers with the values of the job's row and changes nothing.
  pub get_indexing_job_status_rpc_found :
      (job_id : Text) (w : Backend P) (row : Row) (sound : IsSound R row)
      → is_empty job_id ≡ false
      → D.get w.db job_id ≡ some row
      → get_indexing_job_status_rpc P job_id w ≡ (
        ok (record {
          job_id = row.job_id;
          document_id = row.document_id;
          status = status_to_proto sound.status;
          error_message = or_empty row.error_message;
        }),
        w,
      )
  unfolding get_indexing_job_status_rpc get
  get_indexing_job_status_rpc_found job_id w row sound full found =
      ground (arith, to_domain-IsSound R row sound)

  -- An empty id is aborted with INVALID_ARGUMENT, one that no job has with NOT_FOUND, and nothing
  -- has changed.
  pub get_indexing_job_status_rpc_refused :
      (job_id : Text) (w : Backend P) (kind : ExnKind)
      → ((is_empty job_id ≡ true) × (kind ≡ abort_invalid_argument))
        ⊎ ((is_empty job_id ≡ false) × (D.get w.db job_id ≡ none) × (kind ≡ abort_not_found))
      → IsAborted kind (get_indexing_job_status_rpc P job_id w).0
        × ((get_indexing_job_status_rpc P job_id w).1 ≡ w)
  unfolding get_indexing_job_status_rpc get
  get_indexing_job_status_rpc_refused job_id w kind (inl (h, k)) = ground arith
  get_indexing_job_status_rpc_refused job_id w kind (inr (h, missing, k)) = ground arith
