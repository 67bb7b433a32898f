-- ===== src/Delivery/Reports.antt =====
-- services/status_service.py behind workers/document_worker.py: the status of a job that has been
-- handled.
use doccontext.Base.{
  ℕ, ◌≡◌, refl, ap, ◌∙◌, false, some, take, Text, codes, is_empty, same, same_refl,
}
use doccontext.Base.Exn.{Result, ok, raise}
use doccontext.Models.{succeeded, failed, job_status_of_str}
use doccontext.Jobs.Database.{Row, IsDatabase}
use doccontext.Jobs.Rows.{IsSound}
use doccontext.Workers.Envelope.{JobEnvelope}
use doccontext.Workers.DocumentWorker.{Parts, Moments, World, run_job, handle_job}
use doccontext.Workers.Outcome.{final_row, handle_job_outcome}
use doccontext.Workers.Drain.{final_row-IsSound}
use doccontext.Services.Converters.{status_to_proto}
use doccontext.Services.Handlers.{
  QueuePublisher, ServiceParts, Backend, StatusResponse, get_indexing_job_status_rpc,
}
use doccontext.Services.Submission.{get_indexing_job_status_rpc_found}

-- The services that share the table of the worker.
abbrev pub beside : (P : Parts) → QueuePublisher P.R.Float → Text → ServiceParts
beside P Q name = record { R = P.R; D = P.D; Q = Q; document_jobs_queue = name }

-- The reply for a job of the row; 3 is SUCCEEDED and 4 is FAILED.
abbrev pub reply_of : Row → Result ℕ → StatusResponse
reply_of row (ok n) = record {
  job_id = row.job_id;
  document_id = row.document_id;
  status = 3;
  error_message = codes "";
}
reply_of row (raise e) = record {
  job_id = row.job_id;
  document_id = row.document_id;
  status = 4;
  error_message = take 2048 e.message;
}

module _ (P : Parts) (L : IsDatabase P.D) (Q : QueuePublisher P.R.Float) (name : Text) where
  final_reply :
      (now : Moments) (job_id : Text) (w : Backend (beside P Q name)) (row : Row) (r : Result ℕ)
      → IsSound P.R row
      → P.D.get w.db job_id ≡ some (final_row P now row r)
      → is_empty job_id ≡ false
      → get_indexing_job_status_rpc (beside P Q name) job_id w ≡ (ok (reply_of row r), w)
  unfolding status_to_proto job_status_of_str same
  final_reply now job_id w row (ok n) sound found full =
      get_indexing_job_status_rpc_found (beside P Q name) L job_id w (final_row P now row (ok n))
        (record {
          job_type = sound.job_type;
          status = succeeded;
          type_valid = sound.type_valid;
          status_valid = refl;
          row_fits = (final_row-IsSound P L now row (ok n) sound).row_fits;
        })
        full found
  final_reply now job_id w row (raise e) sound found full =
      get_indexing_job_status_rpc_found (beside P Q name) L job_id w (final_row P now row (raise e))
        (record {
          job_type = sound.job_type;
          status = failed;
          type_valid = sound.type_valid;
          status_valid = refl;
          row_fits = (final_row-IsSound P L now row (raise e) sound).row_fits;
        })
        full found

  -- After a message for a job in a row that the program can read, whose id is not empty, has been
  -- handled, GetIndexingJobStatus over the same table answers with the ids of the job, and with
  -- SUCCEEDED and no error message if the job returned, and with FAILED and the first 2048
  -- characters of the error's message if it raised; and it changes nothing.
  pub get_indexing_job_status_rpc_handled :
      (now : Moments) (env : JobEnvelope) (w : World P) (row : Row) (queue : Q.State)
      → IsSound P.R row
      → P.D.get w.db env.job_id ≡ some row
      → is_empty env.job_id ≡ false
      → let after : Backend (beside P Q name) = record {
        db = (handle_job P now env w).1.db;
        queue = queue;
      } in
        get_indexing_job_status_rpc (beside P Q name) env.job_id after
        ≡ (ok (reply_of row (run_job P env env.job_type w).0), after)
  get_indexing_job_status_rpc_handled now env w row queue sound found full =
      let (t, handled, writes) = handle_job_outcome P L now env w row sound found in
      final_reply now env.job_id (record { db = (handle_job P now env w).1.db; queue = queue }) row
        (run_job P env env.job_type w).0 sound
        (ap (λ x. P.D.get x.1.db env.job_id) handled ∙ writes env.job_id ∙ rw same_refl refl) full
