-- ===== src/Delivery/Paths.antt =====
-- services/ and workers/document_worker.py: the moves that `submit` and `handle` make.
use mathlib.Core.Path.{subst}
use doccontext.Base.{
  ℕ, true, ◌≡◌, refl, sym, ap, ◌∙◌, none, some, List, [], ◌∷◌, ◌++◌, arith, inl, inr,
}
use doccontext.Base.{take, same_refl}
use doccontext.Base.Exn.{Result, ok, raise, Result-cases}
use doccontext.Base.Runtime.{Runtime}
use doccontext.Models.{running, succeeded, failed}
use doccontext.Jobs.Database.{Row, Database, IsDatabase, fits}
use doccontext.Jobs.Repository.{transition, mark_running, mark_succeeded, mark_failed}
use doccontext.Jobs.Rows.{IsSound, IsSound-changed_row, MessageFits-take}
use doccontext.Jobs.Lifecycle.{transition_found, create_fresh}
use doccontext.Workers.Envelope.{JobEnvelope, to_payload}
use doccontext.Workers.DocumentWorker.{Parts, Moments, World, run_job, handle_job}
use doccontext.Workers.Outcome.{running_row, run_job-IgnoresDb}
use doccontext.Services.Handlers.{ServiceParts, Backend, QueuedResponse, submit}
use doccontext.Services.Converters.{status_to_proto}
use doccontext.Services.Submission.{queued_row, submit-Submits}
use doccontext.Services.Submission
use doccontext.Delivery.System.{
  System, create_job, Move, created, published, unpublished, taken, finished, aborted, Moves, stay,
  go,
}

then_move :
    (R : Runtime) (D : Database) (s t u v : System R D)
    → Move R D s t
    → Move R D t u
    → u ≡ v
    → Moves R D s v
then_move R D s t u v a b e = subst (Moves R D s) e (go s t u a (go t u u b (stay u)))

-- `handle`, on a message of the queue whose job is in a row that the program can read, makes moves
-- of the system: it takes the message, and it finishes or aborts the job.
pub handle_job-Moves :
    (P : Parts) (L : IsDatabase P.D) (now : Moments) (w : World P) (s : System P.R P.D)
    (xs ys : List JobEnvelope) (env : JobEnvelope) (row : Row)
    → s.db ≡ w.db
    → s.queue ≡ xs ++ env ∷ ys
    → IsSound P.R row
    → P.D.get w.db env.job_id ≡ some row
    → Moves P.R P.D s
        (record s { db = (handle_job P now env w).1.db; queue = xs ++ ys; ended = env ∷ s.ended })
unfolding handle_job mark_running mark_succeeded mark_failed
handle_job-Moves P L now w s xs ys env row same_db at sound found =
    let (t₁, started, writes₁) =
      transition_found P.R P.D L now.started env.job_id running none w.db row sound tt found in
    let sound₁ : IsSound P.R (running_row P now row) =
      IsSound-changed_row P.R now.started running none row sound tt in
    let found₁ : P.D.get t₁ env.job_id ≡ some (running_row P now row) =
      writes₁ env.job_id ∙ rw same_refl in
    let frame = run_job-IgnoresDb P env env.job_type w t₁ in
    let first : System P.R P.D = record s { db = t₁; queue = xs ++ ys; busy = env ∷ s.busy } in
    let begin : Move P.R P.D s first =
      taken now.started xs ys env _ t₁ at
        (ap (transition P.R P.D now.started env.job_id running none) same_db ∙ started) refl in
    elim (Result-cases (run_job P env env.job_type w).0) [
      | inl (n, e) ↦
          let (t₂, done, writes₂) =
            transition_found P.R P.D L now.finished env.job_id succeeded (some none) t₁
              (running_row P now row) sound₁ refl found₁ in
          let last : (handle_job P now env w).1.db ≡ t₂ = ground arith in
          let second : System P.R P.D = record s {
            db = t₂;
            queue = xs ++ ys;
            ended = env ∷ s.ended;
          } in
          then_move P.R P.D s first second _ begin
            (finished now.finished [] s.busy env _ t₂ refl done refl)
            (ap (λ db. record second { db = db }) (sym last))
      | inr (exc, e) ↦
          let (t₂, done, writes₂) =
            transition_found P.R P.D L now.aborted env.job_id failed
              (some (some (take 2048 exc.message))) t₁ (running_row P now row) sound₁
              (MessageFits-take exc.message) found₁ in
          let last : (handle_job P now env w).1.db ≡ t₂ = ground arith in
          let second : System P.R P.D = record s {
            db = t₂;
            queue = xs ++ ys;
            ended = env ∷ s.ended;
          } in
          then_move P.R P.D s first second _ begin
            (aborted now.aborted [] s.busy env exc.message _ t₂ refl done refl)
            (ap (λ db. record second { db = db }) (sym last))
    ]

-- Where the message of a new job is, after `publish`.
abbrev pub sent :
    (R : Runtime) (D : Database)
    → System R D
    → D.State
    → JobEnvelope
    → Result (Unit {0})
    → System R D
sent R D s db env (ok u) = record s { db = db; queue = s.queue ++ env ∷ [] }
sent R D s db env (raise e) = record s { db = db; lost = env ∷ s.lost }

-- The moves that the table and the result of `publish` tell of.
submit_path :
    (P : ServiceParts) (L : IsDatabase P.D) (now : ℕ) (env : JobEnvelope) (w : Backend P)
    (s : System P.R P.D)
    → s.db ≡ w.db
    → P.D.get w.db env.job_id ≡ none
    → fits (queued_row now env) ≡ true
    → Moves P.R P.D s (
        sent P.R P.D s
          (submit P now env w).1.db
          env
          (P.Q.publish P.document_jobs_queue (to_payload P.R env) w.queue).0)
unfolding submit
submit_path P L now env w s same_db free ok_row =
    let (t, made, writes) =
      create_fresh P.R P.D L now env.job_id env.job_type env.client_id env.corpus_id env.document_id
        env.file_type env.file_path w.db free ok_row in
    let first : System P.R P.D = record s { db = t; unsent = env ∷ s.unsent } in
    let begin : Move P.R P.D s first =
      created now env _ t (ap (create_job P.R P.D now env) same_db ∙ made) refl in
    elim (Result-cases (P.Q.publish P.document_jobs_queue (to_payload P.R env) w.queue).0) [
      | inl (u, e) ↦
          let last : (submit P now env w).1.db ≡ t = ground arith in
          then_move P.R P.D s first (sent P.R P.D s t env (ok u)) _ begin
            (published [] s.unsent env refl refl)
            (ap (λ db. sent P.R P.D s db env (ok u)) (sym last)
              ∙ ap (sent P.R P.D s (submit P now env w).1.db env) (sym e))
      | inr (exc, e) ↦
          let last : (submit P now env w).1.db ≡ t = ground arith in
          then_move P.R P.D s first (sent P.R P.D s t env (raise exc)) _ begin
            (unpublished [] s.unsent env refl refl)
            (ap (λ db. sent P.R P.D s db env (raise exc)) (sym last)
              ∙ ap (sent P.R P.D s (submit P now env w).1.db env) (sym e))
    ]

-- The reply to the caller: the id of the job and QUEUED, which is 1, or what `publish` raised.
abbrev pub reply_after : JobEnvelope → Result (Unit {0}) → Result QueuedResponse
reply_after env (ok u) = ok (record { job_id = env.job_id; status = 1 })
reply_after env (raise e) = raise e

published-reply_after :
    (P : ServiceParts) (L : IsDatabase P.D) (env : JobEnvelope) (r : Result (Unit {0}))
    → Submission.published P L env r ≡ reply_after env r
unfolding status_to_proto
published-reply_after P L env (ok u) = refl
published-reply_after P L env (raise e) = refl

-- `submit`, under a job id that is new and with values that fit the table, leaves the queue as one
-- `publish` of the envelope's payload to the queue of the jobs leaves it, and replies with the id of
-- the job and QUEUED if that returns and raises what that raises. Its effect is one of moves of the
-- system: the job is created, and its message is put on the queue in the first case and is gone in
-- the second.
pub submit-Moves :
    (P : ServiceParts) (L : IsDatabase P.D) (now : ℕ) (env : JobEnvelope) (w : Backend P)
    (s : System P.R P.D)
    → s.db ≡ w.db
    → P.D.get w.db env.job_id ≡ none
    → fits (queued_row now env) ≡ true
    → let (r, queue) = P.Q.publish P.document_jobs_queue (to_payload P.R env) w.queue in
      let (reply, after) = submit P now env w in
      (after.queue ≡ queue)
      × (reply ≡ reply_after env r)
      × Moves P.R P.D s (sent P.R P.D s after.db env r)
submit-Moves P L now env w s same_db free ok_row =
    let r = (P.Q.publish P.document_jobs_queue (to_payload P.R env) w.queue).0 in
    let (db, submitted, writes) = submit-Submits P L now env w free ok_row in
    (
      ap (λ x. x.1.queue) submitted,
      ap (λ x. x.0) submitted ∙ published-reply_after P L env r,
      submit_path P L now env w s same_db free ok_row,
    )
