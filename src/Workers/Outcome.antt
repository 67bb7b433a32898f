-- ===== src/Workers/Outcome.antt =====
-- workers/document_worker.py: the end of a job.
use mathlib.Core.Path.{subst}
use doccontext.Base.{ℕ, ◌≡◌, refl, ◌∙◌, Option, none, some, arith, take, Text, codes}
use doccontext.Base.{same_refl, inl, inr, List, [], ◌∷◌}
use doccontext.Base.Exn.{Result, ok, raise, Result-cases}
use doccontext.Base.Exec.{Exec, lift, ◌>>=◌}
use doccontext.Models.{
  JobType, index_document, delete_document, running, succeeded, failed, job_status_to_str,
}
use doccontext.Jobs.Database.{Row, IsDatabase}
use doccontext.Jobs.Repository.{changed_row, mark_running, mark_succeeded, mark_failed}
use doccontext.Jobs.Rows.{IsSound, IsSound-changed_row, MessageFits-take}
use doccontext.Jobs.Lifecycle.{Writes, transition_found}
use doccontext.Workers.Envelope.{JobEnvelope}
use doccontext.Workers.DocumentWorker.{
  Parts, Moments, World, index_chunks, index_file, handle_index, handle_delete, run_job, handle_job,
}
use doccontext.Chunking.Defs.{Chunk}

module _ (P : Parts) where
  open P use {R, D, V}

  abbrev with_db : D.State → World P → World P
  with_db s w = record w { db = s }

  -- The action neither reads nor writes the job table.
  abbrev IgnoresDb : Exec (World P) ℕ → Type 0
  IgnoresDb m = (w : World P) (s : D.State) → m (with_db s w) ≡ ((m w).0, with_db s (m w).1)

  IgnoresDb-lift-bind :
      {A : Type 0} (r : Result A) (f : A → Exec (World P) ℕ)
      → ((a : A) → IgnoresDb (f a))
      → IgnoresDb (lift r >>= f)
  IgnoresDb-lift-bind (ok a) f h w s = h a w s
  IgnoresDb-lift-bind (raise e) f h w s = refl

  index_chunks-IgnoresDb :
      (env : JobEnvelope) (chunks : List Chunk) → IgnoresDb (index_chunks P env chunks)
  unfolding index_chunks
  index_chunks-IgnoresDb env [] w s = refl
  index_chunks-IgnoresDb env (c ∷ chunks) w s = ground arith

  index_file-IgnoresDb : (env : JobEnvelope) (path : Text) → IgnoresDb (index_file P env path)
  unfolding index_file
  index_file-IgnoresDb env path =
      IgnoresDb-lift-bind (P.extract_text path env.file_type) _
        λ text. IgnoresDb-lift-bind (P.chunk text) (index_chunks P env) (index_chunks-IgnoresDb env)

  handle_index-IgnoresDb :
      (env : JobEnvelope) (path : Option Text) → IgnoresDb (handle_index P env path)
  unfolding handle_index
  handle_index-IgnoresDb env none w s = refl
  handle_index-IgnoresDb env (some []) w s = refl
  handle_index-IgnoresDb env (some (c ∷ path)) w s = index_file-IgnoresDb env (c ∷ path) w s

  pub run_job-IgnoresDb : (env : JobEnvelope) (t : JobType) → IgnoresDb (run_job P env t)
  unfolding run_job handle_delete
  run_job-IgnoresDb env index_document w s = handle_index-IgnoresDb env env.file_path w s
  run_job-IgnoresDb env delete_document w s = ground arith

  -- The row of the job while it runs, and afterwards.
  abbrev pub running_row : Moments → Row → Row
  running_row now row = changed_row now.started running none row

  abbrev pub last_row : Moments → Row → Result ℕ → Row
  last_row now row (ok n) = changed_row now.finished succeeded (some none) (running_row now row)
  last_row now row (raise e) =
      changed_row now.aborted failed (some (some (take 2048 e.message))) (running_row now row)

  -- The row of the job afterwards, value by value.
  abbrev pub final_row : Moments → Row → Result ℕ → Row
  final_row now row (ok n) = record row {
    status = codes "SUCCEEDED";
    error_message = none;
    updated_at = now.finished;
  }
  final_row now row (raise e) = record row {
    status = codes "FAILED";
    error_message = some (take 2048 e.message);
    updated_at = now.aborted;
  }

  pub last_row-final_row :
      (now : Moments) (row : Row) (r : Result ℕ) → last_row now row r ≡ final_row now row r
  unfolding job_status_to_str
  last_row-final_row now row (ok n) = refl
  last_row-final_row now row (raise e) = refl

  -- What `handle` makes of the result of the job.
  abbrev pub final_result : Result ℕ → Result (Unit {0})
  final_result (ok n) = ok tt
  final_result (raise e) = raise e

  Writes-Writes :
      (s t u : D.State) (job_id : Text) (row new : Row)
      → Writes D s t job_id row
      → Writes D t u job_id new
      → Writes D s u job_id new
  Writes-Writes s t u job_id row new p q j = ground (arith, p j, q j)

  handle_job-Ends :
      (L : IsDatabase D) (now : Moments) (env : JobEnvelope) (w : World P) (row : Row)
      → IsSound R row
      → D.get w.db env.job_id ≡ some row
      → let (r, w') = run_job P env env.job_type w in
        (t : D.State) × (handle_job P now env w
          ≡ (final_result r, record { db = t; store = w'.store }))
        × Writes D w.db t env.job_id (last_row now row r)
  unfolding handle_job mark_running mark_succeeded mark_failed
  handle_job-Ends L now env w row sound found =
      let (t₁, started, writes₁) =
        transition_found R D L now.started env.job_id running none w.db row sound tt found in
      let sound₁ : IsSound R (running_row now row) =
        IsSound-changed_row R now.started running none row sound tt in
      let found₁ : D.get t₁ env.job_id ≡ some (running_row now row) =
        writes₁ env.job_id ∙ rw same_refl in
      let frame = run_job-IgnoresDb env env.job_type w t₁ in
      elim (Result-cases (run_job P env env.job_type w).0) [
        | inl (n, e) ↦
            let (t₂, finished, writes₂) =
              transition_found R D L now.finished env.job_id succeeded (some none) t₁
                (running_row now row) sound₁ refl found₁ in
            (
              t₂,
              ground arith,
              rw e (
                  Writes-Writes w.db t₁ t₂ env.job_id (running_row now row)
                    (last_row now row (ok n)) writes₁ writes₂),
            )
        | inr (exc, e) ↦
            let (t₂, finished, writes₂) =
              transition_found R D L now.aborted env.job_id failed
                (some (some (take 2048 exc.message))) t₁ (running_row now row) sound₁
                (MessageFits-take exc.message) found₁ in
            (
              t₂,
              ground arith,
              rw e (
                  Writes-Writes w.db t₁ t₂ env.job_id (running_row now row)
                    (last_row now row (raise exc)) writes₁ writes₂),
            )
      ]

  -- A message for a job in a row that the program can read is handled to its end. The handler
  -- returns if the job did and raises what the job raised. Then the row has the status SUCCEEDED and
  -- no error message, or FAILED and the first 2048 characters of the error's, with the time, and its
  -- other values; no other row has changed; and the store is as the job left it.
  pub handle_job_outcome :
      (L : IsDatabase D) (now : Moments) (env : JobEnvelope) (w : World P) (row : Row)
      → IsSound R row
      → D.get w.db env.job_id ≡ some row
      → let (r, w') = run_job P env env.job_type w in
        (t : D.State) × (handle_job P now env w
          ≡ (final_result r, record { db = t; store = w'.store }))
        × Writes D w.db t env.job_id (final_row now row r)
  handle_job_outcome L now env w row sound found =
      let (t, handled, writes) = handle_job-Ends L now env w row sound found in
      (
        t,
        handled,
        subst (Writes D w.db t env.job_id)
            (last_row-final_row now row (run_job P env env.job_type w).0) writes,
      )
