-- ===== src/Tests/Handovers.antt =====
-- The handlers and the worker on one table and one queue.
use doccontext.Base.{◌≡◌, refl, some, [], ◌∷◌, codes, same}
use doccontext.Base.Exn.{Result, ok}
use doccontext.Models.{
  index_document, job_status_to_str, job_type_to_str, job_type_of_str, job_status_of_str,
}
use doccontext.Jobs.Database.{fits}
use doccontext.Jobs.Repository.{create, to_domain}
use doccontext.Jobs.Memory.{memory_database, memory_database-IsDatabase, find_row, insert_row}
use doccontext.Workers.Envelope.{JobEnvelope, to_payload}
use doccontext.Workers.DocumentWorker.{Parts, handle_job, run_job}
use doccontext.Workers.Drain.{IsDone, drained}
use doccontext.Services.Converters.{file_type_name, file_type_to_str, status_to_proto}
use doccontext.Services.Handlers.{
  Backend, QueuedResponse, index_document_rpc, submit, get_indexing_job_status_rpc,
}
use doccontext.Services.Submission.{index_envelope}
use doccontext.Queue.RabbitMq.{publish, channel_open, connection_of, channel_of}
use doccontext.Delivery.System.{Moves}
use doccontext.Delivery.Paths.{handle_job-Moves, submit-Moves, sent}
use doccontext.Delivery.Reports.{beside, reply_of, get_indexing_job_status_rpc_handled}
use doccontext.Delivery.Journey.{rabbit_parts, index_document_rpc-IsDone}
use doccontext.Tests.Samples.{sample_runtime, sample_row, sample_envelope}
use doccontext.Tests.Rows.{sample_row-IsSound, find_row_sample, find_row_other}
use doccontext.Tests.Work.{sample_parts, moments, world}
use doccontext.Tests.Requests.{service_parts, backend, request}
use doccontext.Tests.Journeys.{waiting, memory_amqp, memory_amqp-IsBroker, rabbit}

handle_job-Moves_example : Moves sample_runtime memory_database waiting (record waiting {
  db = (handle_job sample_parts moments sample_envelope world).1.db;
  queue = [];
  ended = sample_envelope ∷ [];
})
handle_job-Moves_example =
    handle_job-Moves sample_parts memory_database-IsDatabase moments world waiting [] []
      sample_envelope sample_row refl refl sample_row-IsSound find_row_sample

abbrev new_envelope : JobEnvelope
new_envelope = index_envelope (codes "j2") (codes "d9") request (codes "txt")

submit-Moves_example :
    let (reply, after) = submit service_parts 8 new_envelope backend in
    (after.queue
      ≡ (service_parts.Q.publish service_parts.document_jobs_queue
          (to_payload sample_runtime new_envelope)
          backend.queue).1)
    × (reply ≡ ok (record { job_id = codes "j2"; status = 1 }))
    × Moves sample_runtime memory_database waiting
        (sent sample_runtime memory_database waiting after.db new_envelope (ok tt))
unfolding fits job_type_to_str job_status_to_str
submit-Moves_example =
    submit-Moves service_parts memory_database-IsDatabase 8 new_envelope backend waiting refl
      find_row_other refl

-- A runtime that reads every text as the payload of the new job.
abbrev reading_parts : Parts
reading_parts = record sample_parts {
  R = record sample_runtime { loads = λ t. some (to_payload sample_runtime new_envelope) };
}

abbrev rabbit_backend :
    Backend (rabbit_parts reading_parts memory_amqp (codes "amqp://h") (codes "jobs"))
rabbit_backend = record { db = sample_row ∷ []; queue = rabbit }

abbrev handled :
    Result QueuedResponse
    × Backend (rabbit_parts reading_parts memory_amqp (codes "amqp://h") (codes "jobs"))
handled =
    index_document_rpc (rabbit_parts reading_parts memory_amqp (codes "amqp://h") (codes "jobs")) 8
      (codes "j2") (codes "d9") request rabbit_backend

abbrev reply : QueuedResponse
reply = record { job_id = codes "j2"; status = 1 }

replied : handled.0 ≡ ok reply
unfolding index_document_rpc file_type_to_str file_type_name submit create to_domain find_row
    insert_row same fits job_status_to_str job_type_to_str job_type_of_str job_status_of_str publish
    channel_open connection_of channel_of status_to_proto
replied = refl

index_document_rpc-IsDone_example :
    IsDone reading_parts memory_database-IsDatabase moments
      (drained reading_parts memory_database-IsDatabase moments
        (handled.1.queue.world (codes "jobs"))
        (record { db = handled.1.db; store = 0 }))
      (codes "j2")
unfolding file_type_name fits job_type_to_str job_status_to_str to_payload
index_document_rpc-IsDone_example =
    index_document_rpc-IsDone reading_parts memory_amqp memory_database-IsDatabase
      memory_amqp-IsBroker (codes "amqp://h") (codes "jobs") 8 moments (codes "j2") (codes "d9")
      request (codes "txt") rabbit_backend 0 reply refl refl refl refl find_row_other refl refl refl
      replied

abbrev handled_backend : Backend (beside sample_parts service_parts.Q (codes "jobs"))
handled_backend = record {
  db = (handle_job sample_parts moments sample_envelope world).1.db;
  queue = backend.queue;
}

get_indexing_job_status_rpc_handled_example :
    get_indexing_job_status_rpc
      (beside sample_parts service_parts.Q (codes "jobs"))
      (codes "j1")
      handled_backend
    ≡ (
      ok (reply_of sample_row (run_job sample_parts sample_envelope index_document world).0),
      handled_backend,
    )
get_indexing_job_status_rpc_handled_example =
    get_indexing_job_status_rpc_handled sample_parts memory_database-IsDatabase service_parts.Q
      (codes "jobs") moments sample_envelope world sample_row backend.queue sample_row-IsSound
      find_row_sample refl
