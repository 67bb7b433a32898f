-- ===== src/Delivery/System.antt =====
-- services/index_service.py, delete_service.py and workers/document_worker.py: the handlers and
-- any number of workers on one table and one queue, as a step relation. A message stands for its
-- envelope.
use doccontext.Base.{ℕ, ◌≡◌, List, [], ◌∷◌, ◌++◌, Text}
use doccontext.Base.Exn.{Exn, ok, raise}
use doccontext.Base.Exec.{Exec}
use doccontext.Base.Runtime.{Runtime}
use doccontext.Models.{Job}
use doccontext.Jobs.Database.{Database}
use doccontext.Jobs.Repository.{create, mark_running, mark_succeeded, mark_failed}
use doccontext.Workers.Envelope.{JobEnvelope}

module _ (R : Runtime) (D : Database) where
  -- The table; the jobs whose row is there and whose message is not published yet; the messages on
  -- the queue; the messages of the jobs that workers run; the messages whose job has ended and that
  -- are not settled yet; and the messages that are gone although their job has not ended: they could
  -- not be published, or a worker that was cancelled or could not write the table has rejected them.
  pub record System : Type 0 where
    pub db : D.State
    pub unsent : List JobEnvelope
    pub queue : List JobEnvelope
    pub busy : List JobEnvelope
    pub ended : List JobEnvelope
    pub lost : List JobEnvelope

  -- `create`, with the values of an envelope
  abbrev pub create_job : ℕ → JobEnvelope → Exec D.State Job
  create_job now env =
      create R D now env.job_id env.job_type env.client_id env.corpus_id env.document_id
        env.file_type env.file_path

  pub data Move (s t : System) : Type 0 where
    -- A handler calls `create`, which returns.
    created :
        (now : ℕ) (env : JobEnvelope) (job : Job) (db : D.State)
        → create_job now env s.db ≡ (ok job, db)
        → t ≡ record s { db = db; unsent = env ∷ s.unsent }
        → Move s t
    -- `publish` returns.
    published :
        (xs ys : List JobEnvelope) (env : JobEnvelope)
        → s.unsent ≡ xs ++ env ∷ ys
        → t ≡ record s { unsent = xs ++ ys; queue = s.queue ++ env ∷ [] }
        → Move s t
    -- `publish` raises, or the server stops.
    unpublished :
        (xs ys : List JobEnvelope) (env : JobEnvelope)
        → s.unsent ≡ xs ++ env ∷ ys
        → t ≡ record s { unsent = xs ++ ys; lost = env ∷ s.lost }
        → Move s t
    -- A worker takes a message, and `mark_running` returns.
    taken :
        (now : ℕ) (xs ys : List JobEnvelope) (env : JobEnvelope) (job : Job) (db : D.State)
        → s.queue ≡ xs ++ env ∷ ys
        → mark_running R D now env.job_id s.db ≡ (ok job, db)
        → t ≡ record s { db = db; queue = xs ++ ys; busy = env ∷ s.busy }
        → Move s t
    -- A worker takes a message, and `mark_running` raises: the message is rejected.
    rejected :
        (now : ℕ) (xs ys : List JobEnvelope) (env : JobEnvelope) (e : Exn) (db : D.State)
        → s.queue ≡ xs ++ env ∷ ys
        → mark_running R D now env.job_id s.db ≡ (raise e, db)
        → t ≡ record s { db = db; queue = xs ++ ys }
        → Move s t
    -- A worker has run a job, and `mark_succeeded` returns.
    finished :
        (now : ℕ) (xs ys : List JobEnvelope) (env : JobEnvelope) (job : Job) (db : D.State)
        → s.busy ≡ xs ++ env ∷ ys
        → mark_succeeded R D now env.job_id s.db ≡ (ok job, db)
        → t ≡ record s { db = db; busy = xs ++ ys; ended = env ∷ s.ended }
        → Move s t
    -- The job has raised, and `mark_failed` returns.
    aborted :
        (now : ℕ) (xs ys : List JobEnvelope) (env : JobEnvelope) (message : Text) (job : Job)
        (db : D.State)
        → s.busy ≡ xs ++ env ∷ ys
        → mark_failed R D now env.job_id message s.db ≡ (ok job, db)
        → t ≡ record s { db = db; busy = xs ++ ys; ended = env ∷ s.ended }
        → Move s t
    -- The message is acknowledged, or rejected without a requeue.
    settled :
        (xs ys : List JobEnvelope) (env : JobEnvelope)
        → s.ended ≡ xs ++ env ∷ ys
        → t ≡ record s { ended = xs ++ ys }
        → Move s t
    -- A worker is cancelled, or cannot write the table, before `mark_running` has written the row.
    -- `CancelledError` is no `Exception`, so `handle` does not catch it; in both cases the message
    -- is rejected without a requeue.
    dropped_early :
        (xs ys : List JobEnvelope) (env : JobEnvelope)
        → s.queue ≡ xs ++ env ∷ ys
        → t ≡ record s { queue = xs ++ ys; lost = env ∷ s.lost }
        → Move s t
    -- The same after that and before the end of the job is written: the row stays RUNNING.
    dropped_busy :
        (xs ys : List JobEnvelope) (env : JobEnvelope)
        → s.busy ≡ xs ++ env ∷ ys
        → t ≡ record s { busy = xs ++ ys; lost = env ∷ s.lost }
        → Move s t
    -- The process of a worker dies before it has settled its message, which the broker delivers
    -- again.
    crashed_busy :
        (xs ys : List JobEnvelope) (env : JobEnvelope)
        → s.busy ≡ xs ++ env ∷ ys
        → t ≡ record s { busy = xs ++ ys; queue = env ∷ s.queue }
        → Move s t
    crashed_ended :
        (xs ys : List JobEnvelope) (env : JobEnvelope)
        → s.ended ≡ xs ++ env ∷ ys
        → t ≡ record s { ended = xs ++ ys; queue = env ∷ s.queue }
        → Move s t

  -- Any number of moves.
  pub data Moves : System → System → Type 0 where
    stay : (s : System) → Moves s s
    go : (s t u : System) → Move s t → Moves t u → Moves s u

  -- The system with this table and nothing on its way.
  abbrev pub idle : D.State → System
  idle db = record { db = db; unsent = []; queue = []; busy = []; ended = []; lost = [] }
