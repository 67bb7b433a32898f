-- ===== src/Delivery/Journey.antt =====
-- services/index_service.py, queue/rabbitmq.py and workers/: a job from its request to its end.
use mathlib.Core.Path.{subst, subst₂}
use doccontext.Base.{ℕ, ◌≡◌, refl, sym, ap, ◌∙◌, true, false, none, some, [], ◌∷◌, inl, inr}
use doccontext.Base.{arith, Text, is_empty, same_refl}
use doccontext.Base.Exn.{ok, Result-cases}
use doccontext.Base.Runtime.{Runtime}
use doccontext.Models.{queued}
use doccontext.Jobs.Database.{IsDatabase, fits}
use doccontext.Jobs.Rows.{IsSound, job_type_of_str-to_str, job_status_of_str-to_str}
use doccontext.Workers.Envelope.{JobEnvelope, to_payload}
use doccontext.Workers.DocumentWorker.{Parts, Moments, World}
use doccontext.Workers.Drain.{IsKnown, IsDone, drained, consume-AllDone}
use doccontext.Services.Converters.{file_type_name}
use doccontext.Services.Handlers.{
  ServiceParts, Backend, QueuedResponse, IndexDocumentRequest, index_document_rpc,
}
use doccontext.Services.Submission.{queued_row, index_envelope, index_document_rpc-Submits}
use doccontext.Queue.RabbitMq.{Amqp, rabbit_publisher, publish}
use doccontext.Queue.Connection.{IsBroker}
use doccontext.Queue.Publishing.{publish_lem}

-- The handlers of a server, over RabbitMQ and the table that the worker has.
abbrev pub rabbit_parts : Parts → Amqp → Text → Text → ServiceParts
rabbit_parts W A url queue = record {
  R = W.R;
  D = W.D;
  Q = rabbit_publisher A W.R url;
  document_jobs_queue = queue;
}

queued_row-IsSound :
    (R : Runtime) (now : ℕ) (env : JobEnvelope)
    → fits (queued_row now env) ≡ true
    → IsSound R (queued_row now env)
queued_row-IsSound R now env ok_row = record {
  job_type = env.job_type;
  status = queued;
  type_valid = job_type_of_str-to_str env.job_type;
  status_valid = job_status_of_str-to_str queued;
  row_fits = ok_row;
}

-- One message, of a job that is in the table as it was created.
drained_one :
    (W : Parts) (LD : IsDatabase W.D) (moments : Moments) (now : ℕ) (env : JobEnvelope)
    (body : Text) (w : World W)
    → W.R.loads body ≡ some (to_payload W.R env)
    → fits (queued_row now env) ≡ true
    → W.D.get w.db env.job_id ≡ some (queued_row now env)
    → IsDone W LD moments (drained W LD moments (body ∷ []) w) env.job_id
drained_one W LD moments now env body w read ok_row found =
    let known : IsKnown W LD moments w env.job_id =
      (queued_row now env, found, queued_row-IsSound W.R now env ok_row) in
    (consume-AllDone W LD moments (env ∷ []) (body ∷ []) w (read, tt) (known, tt)).0.0

-- The handler has replied to a valid IndexDocument request while the queue was empty, and the JSON
-- text of the message is read back. Then a worker that consumes the queue brings the job of the
-- reply to SUCCEEDED or FAILED, whatever its store, embedder, chunker and extractor do.
pub index_document_rpc-IsDone :
    (W : Parts) (A : Amqp) (LD : IsDatabase W.D) (L : IsBroker A) (url queue : Text) (now : ℕ)
    (moments : Moments) (job_id fresh_id : Text) (request : IndexDocumentRequest) (file_type : Text)
    (w : Backend (rabbit_parts W A url queue)) (store : W.V.State) (reply : QueuedResponse)
    → is_empty request.client_id ≡ false
    → is_empty request.corpus_id ≡ false
    → is_empty request.storage_path ≡ false
    → file_type_name request.file_type ≡ some file_type
    → W.D.get w.db job_id ≡ none
    → fits (queued_row now (index_envelope job_id fresh_id request file_type)) ≡ true
    → L.messages w.queue.world queue ≡ []
    → (let payload = to_payload W.R (index_envelope job_id fresh_id request file_type) in
        W.R.loads (W.R.dumps payload) ≡ some payload)
    → let (r, w') = index_document_rpc (rabbit_parts W A url queue) now job_id fresh_id request w in
      r ≡ ok reply
      → IsDone W LD moments
          (drained W LD moments
            (L.messages w'.queue.world queue)
            (record { db = w'.db; store = store }))
          reply.job_id
index_document_rpc-IsDone W A LD L url queue now moments job_id fresh_id request file_type w store
      reply client corpus path known free ok_row empty read returned =
    let P = rabbit_parts W A url queue in
    let env : JobEnvelope = index_envelope job_id fresh_id request file_type in
    let ((db, done, writes), decoded) =
      index_document_rpc-Submits P LD now job_id fresh_id request file_type w client corpus path
        known free ok_row in
    let payload = to_payload W.R env in
    let handed = publish A W.R url queue payload w.queue in
    elim (Result-cases handed.0) [
      | inr (exc, e) ↦ absurd (ground arith)
      | inl (u, e) ↦
          let body = W.R.dumps payload in
          let bodies : L.messages handed.1.world queue ≡ body ∷ [] =
            publish_lem A L W.R url queue payload w.queue handed.1 (ap (λ r. (r, handed.1)) e) queue
            ∙ rw (same_refl, empty) refl in
          let found : W.D.get db job_id ≡ some (queued_row now env) =
            writes job_id ∙ rw same_refl refl in
          let own : reply.job_id ≡ job_id = ground arith in
          let ended =
            drained_one W LD moments now env body (record { db = db; store = store }) read ok_row
              found in
          subst
            (λ id.
              IsDone W LD moments
                (drained W LD moments
                  (L.messages (index_document_rpc P now job_id fresh_id request w).1.queue.world
                    queue)
                  (record {
                    db = (index_document_rpc P now job_id fresh_id request w).1.db;
                    store = store;
                  }))
                id)
            (sym own)
            (subst₂
              (λ waiting table.
                IsDone W LD moments
                  (drained W LD moments waiting (record { db = table; store = store })) job_id)
              (sym (ap (λ x. L.messages x.1.queue.world queue) done ∙ bodies))
              (sym (ap (λ x. x.1.db) done)) ended)
    ]
